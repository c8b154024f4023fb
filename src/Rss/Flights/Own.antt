-- ===== src/Rss/Flights/Own.antt =====
-- internal/rss/metadata_cache.go: the start and the end of a flight.
use aninode.Prelude.{
  ℕ, ◌≡◌, ◌≢◌, sym, ap, ◌∙◌, inl, inr, ◌==◌, ==_iff, Text, text_eq, text_eq_sound, neq_text, arith,
  none, some, Bool-cases, some-injective, lookup, assign, found_neq, lookup-assign_same,
  lookup-assign_other, lookup-delete_same, lookup-delete_other,
}
use aninode.Torrent.Metainfo.{Metadata}
use aninode.Rss.Http.{Outcome}
use aninode.Rss.Flights.{waiting, owning, finished, State, take_off, land}
use aninode.Rss.Flights.Kept.{
  set-same, set-cases, IsSound, still_owner, owning-injective, other_result,
}

pub take_off-IsSound :
    (s : State) (i : ℕ) (url : Text)
    → ((url : Text) (flight : ℕ) → s.callers i ≢ owning url flight)
    → lookup url s.flights ≡ none
    → IsSound s
    → IsSound (take_off i url s)
unfolding take_off
take_off-IsSound s i url free lacks h = record {
  owner_holds = λ k u fl e. elim (set-cases i k (owning url s.fresh) (owning u fl) s.callers e) [
    | inl (p, q) ↦
        let (same, new) = owning-injective q in
        rw (sym same, sym new)
          (lookup-assign_same url s.fresh s.flights, set-same s.fresh none s.results, omega arith)
    | inr (p, q) ↦
        let (found, unset, small) = h.owner_holds k u fl q in
        (
          lookup-assign_other u url s.fresh s.flights (found_neq u url fl s.flights found lacks)
              ∙ found,
          other_result s s.fresh fl none none (λ n. omega arith) unset,
          omega arith,
        )
  ];
  has_owner = λ u fl e. elim (Bool-cases (text_eq u url)) [
    | inl t ↦
        let same = text_eq_sound u url t in
        let new = some-injective (
          sym (lookup-assign_same url s.fresh s.flights)
          ∙ ap (λ x. lookup x (assign url s.fresh s.flights)) (sym same)
          ∙ e) in
        (i, rw (same, sym new) (set-same i (owning url s.fresh) s.callers))
    | inr n ↦
        let (j, owns) =
          h.has_owner u fl
            (sym (lookup-assign_other u url s.fresh s.flights (neq_text u url n)) ∙ e) in
        (j, still_owner s i j (owning url s.fresh) u fl (free u fl) owns)
  ];
  waits_for = λ k u fl e. elim (set-cases i k (owning url s.fresh) (waiting u fl) s.callers e) [
    | inl (p, q) ↦ absurd cc
    | inr (p, q) ↦
        let (small, rest) = h.waits_for k u fl q in
        (
          omega arith,
          elim rest [
            | inl (r, closed) ↦
                inl (r, other_result s s.fresh fl none (some r) (λ n. omega arith) closed)
            | inr (j, owns) ↦ inr (j, still_owner s i j (owning url s.fresh) u fl (free u fl) owns)
          ],
        )
  ];
  one_owner = λ k j u u' fl e e'.
      elim (set-cases i k (owning url s.fresh) (owning u fl) s.callers e) [
        | inl (p, q) ↦ elim (set-cases i j (owning url s.fresh) (owning u' fl) s.callers e') [
          | inl (p', q') ↦ sym p ∙ p'
          | inr (p', q') ↦
              let (found, unset, small) = h.owner_holds j u' fl q' in
              let (same, new) = owning-injective q in absurd (omega arith)
        ]
        | inr (p, q) ↦ elim (set-cases i j (owning url s.fresh) (owning u' fl) s.callers e') [
          | inl (p', q') ↦
              let (found, unset, small) = h.owner_holds k u fl q in
              let (same, new) = owning-injective q' in absurd (omega arith)
          | inr (p', q') ↦ h.one_owner k j u u' fl q q'
        ]
      ];
}

pub land-IsSound :
    (s : State) (i : ℕ) (url : Text) (flight now : ℕ) (result : Outcome Metadata)
    → s.callers i ≡ owning url flight
    → IsSound s
    → IsSound (land i url flight now result s)
unfolding land
land-IsSound s i url flight now result mine h =
    let (found_mine, unset_mine, small_mine) = h.owner_holds i url flight mine in
    record {
      owner_holds = λ k u fl e. elim (set-cases i k (finished result) (owning u fl) s.callers e) [
        | inl (p, q) ↦ absurd cc
        | inr (p, q) ↦
            let (found, unset, small) = h.owner_holds k u fl q in
            let other : flight ≢ fl = λ same. p (h.one_owner i k url u flight mine (rw same q)) in
            (
              lookup-delete_other u url s.flights (λ same. other (
                    some-injective
                      (sym found_mine ∙ ap (λ x. lookup x s.flights) (sym same) ∙ found)))
                  ∙ found,
              other_result s flight fl (some result) none other unset,
              small,
            )
      ];
      has_owner = λ u fl e. elim (Bool-cases (text_eq u url)) [
        | inl t ↦
            let gone = lookup-delete_same url s.flights in
            absurd (cc (e, gone, text_eq_sound u url t))
        | inr n ↦
            let (j, owns) =
              h.has_owner u fl (sym (lookup-delete_other u url s.flights (neq_text u url n)) ∙ e) in
            (
              j,
              still_owner s i j (finished result) u fl
                  (λ x. neq_text u url n (sym (owning-injective (sym mine ∙ x)).0)) owns,
            )
      ];
      waits_for = λ k u fl e. elim (set-cases i k (finished result) (waiting u fl) s.callers e) [
        | inl (p, q) ↦ absurd cc
        | inr (p, q) ↦
            let (small, rest) = h.waits_for k u fl q in
            (
              small,
              elim (Bool-cases (flight == fl)) [
                | inl t ↦ inl (
                  result,
                  rw (sym ((==_iff flight fl).0 t)) (set-same flight (some result) s.results),
                )
                | inr n ↦ elim rest [
                  | inl (r, closed) ↦ inl (
                    r,
                    other_result s flight fl (some result) (some r)
                        (λ x. absurd (cc (n, (==_iff flight fl).1 x))) closed,
                  )
                  | inr (j, owns) ↦ inr (
                    j,
                    still_owner s i j (finished result) u fl
                        (λ x.
                          absurd (cc (n, (==_iff flight fl).1 (owning-injective (sym mine ∙ x)).1)))
                        owns,
                  )
                ]
              ],
            )
      ];
      one_owner = λ k j u u' fl e e'.
          elim (set-cases i k (finished result) (owning u fl) s.callers e) [
            | inl (p, q) ↦ absurd cc
            | inr (p, q) ↦ elim (set-cases i j (finished result) (owning u' fl) s.callers e') [
              | inl (p', q') ↦ absurd cc
              | inr (p', q') ↦ h.one_owner k j u u' fl q q'
            ]
          ];
    }
