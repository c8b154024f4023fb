-- ===== src/Auth.antt =====
-- internal/server/auth.go: the sign-in of the web interface. This file has the records and the files
-- with the password hash and the setup code; the children have the sessions, the throttles and the
-- handlers. Times are nanoseconds since the zero time, which is 0.
pub mod Sessions
pub mod Throttles
pub mod Opening
pub mod Flow
use aninode.Prelude.{
  ℕ, ◌+◌, ◌*◌, Bool, true, false, not, ◌&&◌, ◌||◌, if◌then◌else◌, ltb, ◌==◌, Text, text_eq, Option,
  none, some, List, [], length,
}
use aninode.ReleaseFilter.{is_empty}
use aninode.Rss.{second}
use Prim.Native.Nat.{◌%◌}

-- setupCodeLifetime
abbrev pub setup_code_lifetime : ℕ
setup_code_lifetime = 600 * second

-- loginRecord
pub record LoginRecord : Type 0 where
  pub version : ℕ
  pub salt : Text
  pub hash : Text

-- setupRecord
pub record SetupRecord : Type 0 where
  pub version : ℕ
  pub code : Text
  pub expires_at : ℕ

-- loginThrottle
pub record LoginThrottle : Type 0 where
  pub failures : ℕ
  pub blocked_until : ℕ
  pub last_seen : ℕ

-- What a read of a file and the decoder of its JSON give.
pub data Content (A : Type 0) : Type 0 where
  unreadable malformed : Content A
  decoded : A → Content A

-- What os.Lstat and os.ReadFile find at a path: `perm` is info.Mode().Perm().
pub data File (A : Type 0) : Type 0 where
  missing no_stat : File A
  present : (regular : Bool) (perm : ℕ) (content : Content A) → File A

-- WebAuth, with the two files that it names by their paths. `login` is its field record; hash_slots is
-- the number of elements in the channel hashSlots.
pub record WebAuth : Type 0 where
  pub login : Option LoginRecord
  pub sessions : List (Text × ℕ)
  pub throttles : List (Text × LoginThrottle)
  pub hash_slots : ℕ
  pub login_file : File LoginRecord
  pub setup_file : File SetupRecord

-- The functions of Go's library that the sign-in calls: pbkdf2.Key with its fixed hash, rounds and
-- length, sha256.Sum256, base64.RawURLEncoding.EncodeToString, utf8.RuneCountInString,
-- net.SplitHostPort, IsLoopback of net.ParseIP, and the scheme and the host of url.Parse.
pub record Primitives : Type 0 where
  pub pbkdf2 : (password salt : Text) → Option Text
  pub sha256 : Text → Text
  pub base64 : Text → Text
  pub rune_count : Text → ℕ
  pub split_host_port : Text → Option Text
  pub parse_ip : Text → Option Bool
  pub parse_origin : Text → Option (Text × Text)

-- !info.Mode().IsRegular() || info.Mode().Perm()&0077 != 0
unfoldable pub is_exposed : Bool → ℕ → Bool
is_exposed regular perm = not regular || not (perm % 64 == 0)

-- What atomicfile.Write and atomicfile.Create leave behind with the mode 0600.
unfoldable pub private_file : {A : Type 0} → A → File A
private_file a = present true 384 (decoded a)

-- What became of atomicfile.Write or atomicfile.Create and of the calls in front of it: fs.ErrExist is
-- told from the other errors, and an error of syncDir, or of os.Remove, comes when the file is there.
pub data Saved : Type 0 where
  done exists broken unsynced : Saved

-- The write of a setup code.
unfoldable pub write_setup_code :
    SetupRecord → Saved → File SetupRecord → Option SetupRecord × File SetupRecord
write_setup_code r done file = (some r, private_file r)
write_setup_code r unsynced file = (none, private_file r)
write_setup_code r exists file = (none, file)
write_setup_code r broken file = (none, file)

-- A setup record, fs.ErrNotExist, or any other error.
pub data SetupRead : Type 0 where
  got : SetupRecord → SetupRead
  not_exist refused : SetupRead

-- The tests of readSetupCodeAt behind the decoder.
unfoldable pub check_setup : Content SetupRecord → SetupRead
check_setup unreadable = refused
check_setup malformed = refused
check_setup (decoded r) =
    if not (r.version == 1) || is_empty r.code || (r.expires_at == 0) then refused else got r

-- readSetupCodeAt
unfoldable pub read_setup_code : File SetupRecord → SetupRead
read_setup_code missing = not_exist
read_setup_code no_stat = refused
read_setup_code (present regular perm content) =
    if is_exposed regular perm then refused else check_setup content

-- os.Remove: `removed` says whether it could remove a file that is there.
unfoldable pub remove_file : {A : Type 0} → Bool → File A → File A
remove_file removed file = if removed then missing else file

-- A WebAuth without sessions and throttles.
unfoldable pub opened : Option LoginRecord → File LoginRecord → File SetupRecord → WebAuth
opened login login_file setup_file = record {
  login = login;
  sessions = [];
  throttles = [];
  hash_slots = 0;
  login_file = login_file;
  setup_file = setup_file;
}

-- if _, err := ensureSetupCodeAt(…); err != nil
unfoldable pub open_fresh : Option SetupRecord × File SetupRecord → Option WebAuth
open_fresh (none, file) = none
open_fresh (some r, file) = some (opened none missing file)

unfoldable pub open_content :
    Bool → ℕ → Content LoginRecord → Bool → File SetupRecord → Option WebAuth
open_content regular perm unreadable removed setup = none
open_content regular perm malformed removed setup = none
open_content regular perm (decoded r) removed setup =
    if not (r.version == 1) || not (length r.salt == 32) || not (length r.hash == 32)
    then none
    else some (opened (some r) (present regular perm (decoded r)) (remove_file removed setup))

module _ (p : Primitives) where
  -- The part of ensureSetupCodeAt behind the first test: `random` is the result of rand.Read, and
  -- `written` says what became of the directory and the file.
  unfoldable pub new_setup_code :
      ℕ → Option Text → Saved → File SetupRecord → Option SetupRecord × File SetupRecord
  new_setup_code now none written file = (none, file)
  new_setup_code now (some bytes) written file =
      let r : SetupRecord = record {
        version = 1;
        code = p.base64 bytes;
        expires_at = now + setup_code_lifetime;
      } in
      write_setup_code r written file

  unfoldable pub keep_setup_code :
      ℕ → Option Text → Saved → File SetupRecord → SetupRead → Option SetupRecord × File SetupRecord
  keep_setup_code now random written file (got r) =
      if ltb now r.expires_at then (some r, file) else new_setup_code now random written file
  keep_setup_code now random written file not_exist = new_setup_code now random written file
  keep_setup_code now random written file refused = (none, file)

  -- ensureSetupCodeAt; no record stands for an error.
  unfoldable pub ensure_setup_code :
      ℕ → Bool → Option Text → Saved → File SetupRecord → Option SetupRecord × File SetupRecord
  ensure_setup_code now force random written file =
      if force
      then new_setup_code now random written file
      else keep_setup_code now random written file (read_setup_code file)

  -- SetupCode; only a login file that is not there lets it go on.
  unfoldable pub setup_code :
      ℕ
      → Option Text
      → Saved
      → File LoginRecord
      → File SetupRecord
      → Option SetupRecord × File SetupRecord
  setup_code now random written missing file = ensure_setup_code now false random written file
  setup_code now random written no_stat file = (none, file)
  setup_code now random written (present regular perm content) file = (none, file)

  -- OpenWebAuth with a configuration root; no result stands for an error.
  unfoldable pub open_web_auth :
      ℕ → Option Text → Saved → Bool → File LoginRecord → File SetupRecord → Option WebAuth
  open_web_auth now random written removed missing setup =
      open_fresh (ensure_setup_code now false random written setup)
  open_web_auth now random written removed no_stat setup = none
  open_web_auth now random written removed (present regular perm content) setup =
      if is_exposed regular perm then none else open_content regular perm content removed setup

  -- passwordRecord: an error of its own, or one of rand.Read or pbkdf2.Key.
  unfoldable pub derive_record : Text → Text → Option LoginRecord
  derive_record password salt = elim (p.pbkdf2 password salt) [
    | none ↦ none
    | some hash ↦ some (record { version = 1; salt = salt; hash = hash })
  ]

  unfoldable pub password_record : Text → Option Text → Option LoginRecord
  password_record password random =
      if ltb (p.rune_count password) 8 || ltb 1024 (length password)
      then none
      else elim random [ none ↦ none | some salt ↦ derive_record password salt ]

  -- matchesRecord, for a record
  unfoldable pub matches_record : Text → LoginRecord → Bool
  matches_record password r =
      if ltb 1024 (length password)
      then false
      else elim (p.pbkdf2 password r.salt) [ none ↦ false | some hash ↦ text_eq hash r.hash ]

-- sameRecord, whose second argument is never nil
unfoldable pub same_record : Option LoginRecord → LoginRecord → Bool
same_record none b = false
same_record (some a) b = text_eq a.salt b.salt && text_eq a.hash b.hash
