-- ===== src/Torrent/Skip.antt =====
-- What skipValue accepts, and that its recursion ends.
use aninode.Prelude.{◌*◌, ◌<◌, ◌≡◌, ◌↔◌, Text, ◌++◌, length, length-append, arith}
use aninode.Torrent.{ok, fuel, skip}
use aninode.Torrent.Grammar.{IsValue}
use aninode.Torrent.Sound.{skip_value_sound}
use aninode.Torrent.Complete.{skip_value_complete}

enough : (t rest : Text) → 2 * length t < fuel (t ++ rest)
enough t rest = let e = length-append t rest in omega arith

-- Where skipValue returns, it has passed over exactly one bencoded value of the grammar, and where
-- the input starts with a value of the grammar, skipValue returns what is behind it.
pub skip_iff : (s rest : Text) → (skip s ≡ ok rest) ↔ ((t : Text) × IsValue t × (s ≡ t ++ rest))
unfolding skip
skip_iff s rest = (
  λ h. skip_value_sound (fuel s) s rest h,
  λ (t, v, e). rw e (skip_value_complete (fuel (t ++ rest)) t rest v (enough t rest)),
)
