-- ===== src/Auth/Opening.antt =====
-- internal/server/auth.go: lemmas on OpenWebAuth and on the setup code.
use aninode.Prelude.{
  ℕ, ◌+◌, ◌<◌, ◌≡◌, refl, sym, ap, ◌⊎◌, inl, inr, Bool, true, false, not, ◌||◌, ltb, ◌==◌, ==_iff,
  Text, arith, Option, none, some, some-injective, length, Bool-cases,
}
use aninode.ReleaseFilter.{is_empty}
use aninode.Auth.{
  LoginRecord, SetupRecord, File, missing, no_stat, present, Content, unreadable, malformed,
  decoded, WebAuth, Primitives, open_web_auth, open_fresh, open_content, opened, is_exposed,
  remove_file, ensure_setup_code, read_setup_code, check_setup, keep_setup_code, new_setup_code,
  write_setup_code, Saved, done, exists, broken, unsynced, SetupRead, got, not_exist, refused,
  private_file, setup_code_lifetime,
}

-- What OpenWebAuth accepts of a record.
abbrev pub IsRecord : LoginRecord → Type 0
IsRecord l = (l.version ≡ 1) × (length l.salt ≡ 32) × (length l.hash ≡ 32)

-- A private file with a record that OpenWebAuth accepts.
abbrev pub IsStored : File LoginRecord → Type 0
IsStored file =
    (l : LoginRecord) × IsRecord l
    × ((regular : Bool) × (perm : ℕ) × (is_exposed regular perm ≡ false)
        × (file ≡ present regular perm (decoded l)))

-- The login file is fine where it is there, and it is there behind a record in memory. The file may
-- have another record: that of a save that came to an error when the file was there.
abbrev pub IsFiled : Option LoginRecord → File LoginRecord → Type 0
IsFiled none file = (file ≡ missing) ⊎ IsStored file
IsFiled (some l) file = IsRecord l × IsStored file

pub stored-IsFiled :
    (login : Option LoginRecord) (l : LoginRecord) (file : File LoginRecord)
    → IsRecord l
    → IsFiled login file
    → IsFiled login (private_file l)
unfolding private_file is_exposed
stored-IsFiled none l file good h = inr (l, good, (true, 384, refl, refl))
stored-IsFiled (some old) l file good (fine, kept) = (fine, (l, good, (true, 384, refl, refl)))

-- The tests of a record, as a Bool.
abbrev is_odd_record : LoginRecord → Bool
is_odd_record l = not (l.version == 1) || not (length l.salt == 32) || not (length l.hash == 32)

tests-IsRecord : (l : LoginRecord) → is_odd_record l ≡ false → IsRecord l
tests-IsRecord l e = (ground arith, ground arith, ground arith)

-- What there is behind OpenWebAuth.
abbrev pub IsOpened : WebAuth → Type 0
IsOpened web =
    (l : Option LoginRecord) × (login_file : File LoginRecord) × (setup_file : File SetupRecord)
    × IsFiled l login_file
    × (web ≡ opened l login_file setup_file)

open_fresh-IsOpened :
    (x : Option SetupRecord × File SetupRecord) (web : WebAuth)
    → open_fresh x ≡ some web
    → IsOpened web
unfolding open_fresh
open_fresh-IsOpened (none, file) web e = absurd (cc)
open_fresh-IsOpened (some r, file) web e = (none, missing, file, inl refl, sym (some-injective e))

open_content-IsOpened :
    (regular : Bool) (perm : ℕ) (content : Content LoginRecord) (removed : Bool)
    (setup : File SetupRecord) (web : WebAuth)
    → is_exposed regular perm ≡ false
    → open_content regular perm content removed setup ≡ some web
    → IsOpened web
unfolding open_content
open_content-IsOpened regular perm unreadable removed setup web h e = absurd (cc)
open_content-IsOpened regular perm malformed removed setup web h e = absurd (cc)
open_content-IsOpened regular perm (decoded l) removed setup web h e =
    elim (Bool-cases (is_odd_record l)) [
      | inl t ↦ absurd (cc (rw (open_content, t) at e))
      | inr f ↦ (
        some l,
        present regular perm (decoded l),
        remove_file removed setup,
        (tests-IsRecord l f, (l, tests-IsRecord l f, (regular, perm, h, refl))),
        sym (some-injective (rw (open_content, f) at e)),
      )
    ]

module _ (p : Primitives) where
  pub open_web_auth-IsOpened :
      (now : ℕ) (random : Option Text) (written : Saved) (removed : Bool)
      (login_file : File LoginRecord) (setup_file : File SetupRecord) (web : WebAuth)
      → open_web_auth p now random written removed login_file setup_file ≡ some web
      → IsOpened web
  unfolding open_web_auth
  open_web_auth-IsOpened now random written removed missing setup_file web e =
      open_fresh-IsOpened _ web e
  open_web_auth-IsOpened now random written removed no_stat setup_file web e = absurd (cc)
  open_web_auth-IsOpened now random written removed (present regular perm content) setup_file web
        e =
      elim (Bool-cases (is_exposed regular perm)) [
        | inl t ↦ absurd (cc (rw (open_web_auth, t) at e))
        | inr f ↦
            open_content-IsOpened regular perm content removed setup_file web f
              (rw (open_web_auth, f) at e)
      ]

  -- A setup record that this process has made passes the tests of readSetupCodeAt.
  check_setup-new :
      (now : ℕ) (r : SetupRecord)
      → r.version ≡ 1
      → is_empty r.code ≡ false
      → r.expires_at ≡ now + setup_code_lifetime
      → read_setup_code (private_file r) ≡ got r
  unfolding read_setup_code private_file is_exposed check_setup
  check_setup-new now r v c x =
      let late : (r.expires_at == 0) ≡ false = rw x (ground arith) in
      rw ((==_iff _ _).1 v, c, late) refl

  read-write_setup_code :
      (r new : SetupRecord) (written : Saved) (file after : File SetupRecord)
      → read_setup_code (private_file new) ≡ got new
      → write_setup_code new written file ≡ (some r, after)
      → read_setup_code after ≡ got r
  unfolding write_setup_code
  read-write_setup_code r new exists file after b e = absurd (cc (ap (λ x. x.0) e))
  read-write_setup_code r new broken file after b e = absurd (cc (ap (λ x. x.0) e))
  read-write_setup_code r new unsynced file after b e = absurd (cc (ap (λ x. x.0) e))
  read-write_setup_code r new done file after b e =
      rw (sym (ap (λ x. x.1) e), sym (some-injective (ap (λ x. x.0) e))) b

  read-new_setup_code :
      (now : ℕ) (random : Option Text) (written : Saved) (file after : File SetupRecord)
      (r : SetupRecord)
      → ((bytes : Text) → length bytes ≡ 18 → is_empty (p.base64 bytes) ≡ false)
      → ((bytes : Text) → random ≡ some bytes → length bytes ≡ 18)
      → new_setup_code p now random written file ≡ (some r, after)
      → read_setup_code after ≡ got r
  unfolding new_setup_code
  read-new_setup_code now none written file after r h fair e = absurd (cc (ap (λ x. x.0) e))
  read-new_setup_code now (some bytes) written file after r h fair e =
      read-write_setup_code r _ written file after
        (check_setup-new now _ refl (h bytes (fair bytes refl)) refl) e

  read-keep_setup_code :
      (now : ℕ) (random : Option Text) (written : Saved) (file after : File SetupRecord)
      (r : SetupRecord) (read : SetupRead)
      → ((bytes : Text) → length bytes ≡ 18 → is_empty (p.base64 bytes) ≡ false)
      → ((bytes : Text) → random ≡ some bytes → length bytes ≡ 18)
      → read_setup_code file ≡ read
      → keep_setup_code p now random written file read ≡ (some r, after)
      → read_setup_code after ≡ got r
  unfolding keep_setup_code
  read-keep_setup_code now random written file after r not_exist h fair f e =
      read-new_setup_code now random written file after r h fair e
  read-keep_setup_code now random written file after r refused h fair f e =
      absurd (cc (ap (λ x. x.0) e))
  read-keep_setup_code now random written file after r (got old) h fair f e =
      elim (Bool-cases (ltb now old.expires_at)) [
        | inr n ↦
            read-new_setup_code now random written file after r h fair
              (rw (keep_setup_code, n) at e)
        | inl t ↦
            let kept = rw (keep_setup_code, t) at e in
            rw (sym (ap (λ x. x.1) kept), f, some-injective (ap (λ x. x.0) kept)) refl
      ]

  -- Where rand.Read fills the 18 bytes that it is given, and no encoding of 18 bytes is empty, the
  -- setup code that ensureSetupCodeAt returns stands in the file that it leaves, and a call before
  -- its deadline returns it again and keeps the file.
  pub ensure_setup_code-again :
      (now later : ℕ) (random random' : Option Text) (written written' : Saved)
      (file after : File SetupRecord) (r : SetupRecord)
      → ((bytes : Text) → length bytes ≡ 18 → is_empty (p.base64 bytes) ≡ false)
      → ((bytes : Text) → random ≡ some bytes → length bytes ≡ 18)
      → ensure_setup_code p now false random written file ≡ (some r, after)
      → later < r.expires_at
      → (read_setup_code after ≡ got r)
        × (ensure_setup_code p later false random' written' after ≡ (some r, after))
  unfolding ensure_setup_code keep_setup_code
  ensure_setup_code-again now later random random' written written' file after r h fair e t =
      let back = read-keep_setup_code now random written file after r _ h fair refl e in
      let soon : ltb later r.expires_at ≡ true = ground arith in
      (back, (rw (back, keep_setup_code, soon) refl))
