-- ===== src/Inventory/Known.antt =====
-- RequireKnown: an inventory without complaint is known throughout.
use aninode.Prelude.{true, ◌≡◌, refl, ◌↔◌, List, [], ◌∷◌, ◌++◌, All, Text, ℤ, arith}
use aninode.Inventory.{
  Snapshot, EntryInventory, SeasonInventory, Complaint, season_complaints, entry_complaints,
  require_known,
}

-- Every Entry, and every season that it lists, is known.
abbrev pub IsKnown : List (Text × EntryInventory) → Type 0
IsKnown = All (λ e. (e.1.known ≡ true) × All (λ n. n.1.known ≡ true) e.1.seasons)

append-eq-nil : (xs ys : List Complaint) → (xs ++ ys ≡ []) ↔ ((xs ≡ []) × (ys ≡ []))
append-eq-nil [] ys = (λ h. (refl, h), λ h. h.1)
append-eq-nil (x ∷ xs) ys = (λ h. cc, λ h. cc)

seasons_known :
    (l : List (ℤ × SeasonInventory)) → (season_complaints l ≡ []) ↔ All (λ n. n.1.known ≡ true) l
unfolding season_complaints
seasons_known [] = (λ h. tt, λ h. refl)
seasons_known ((n, si) ∷ r) = ground (arith, seasons_known r)

entries-IsKnown : (l : List (Text × EntryInventory)) → (entry_complaints l ≡ []) ↔ IsKnown l
unfolding entry_complaints
entries-IsKnown [] = (λ h. tt, λ h. refl)
entries-IsKnown ((k, wi) ∷ r) = ground (
  arith,
  entries-IsKnown r,
  seasons_known wi.seasons,
  append-eq-nil (season_complaints wi.seasons) (entry_complaints r),
)

-- RequireKnown reports no error exactly when every Entry, and every season that it lists, is known.
pub require_known_iff : (s : Snapshot) → (require_known s ≡ []) ↔ IsKnown s.entries
unfolding require_known
require_known_iff s = entries-IsKnown s.entries
