-- ===== src/Candidate/Schedule/Chains.antt =====
-- Selections from a list of candidates, latest first, and what the table of the dynamic programme
-- holds: for every prefix of the sorted group a selection of greatest coverage.
use aninode.Prelude.{
  ℕ, ◌≡◌, ap, ◌∙◌, sym, List, [], ◌∷◌, ◌++◌, reverse, ℤ, pos, ◌≤ℤ◌, ◌<ℤ◌, ◌+ℤ◌, ltb_ℤ, ltb_ℤ→lt,
  ltb_ℤ→le, All, All-map, Ordered, arith, int_laws, pos_part, neg_part, Bool-cases, inl, inr,
}
use mathlib.Core.List.{reverse-append}
use aninode.Episode.{Key, end_of, width}
use aninode.Candidate.Schedule.{Selection, previous_selection, latest}

-- Some of the elements of a list, in their order, each related to those behind it.
pub data Pick {ℓ} (R : ℕ → ℕ → Type ℓ) : List ℕ → List ℕ → Type ℓ where
  stop : Pick R [] []
  skip : {d : ℕ} {c ds : List ℕ} → Pick R c ds → Pick R c (d ∷ ds)
  keep : {d : ℕ} {c ds : List ℕ} → All (R d) c → Pick R c ds → Pick R (d ∷ c) (d ∷ ds)

pub Pick-All {ℓ κ} :
    {R : ℕ → ℕ → Type ℓ} (P : ℕ → Type κ) {c ds : List ℕ} → Pick R c ds → All P ds → All P c
Pick-All P stop h = tt
Pick-All P (skip p) h = Pick-All P p h.1
Pick-All P (keep r p) h = (h.0, Pick-All P p h.1)

Pick-none {ℓ} : {R : ℕ → ℕ → Type ℓ} (ds : List ℕ) → Pick R [] ds
Pick-none [] = stop
Pick-none (d ∷ ds) = skip (Pick-none ds)

module _ (ep : ℕ → Key) where
  -- `y` ends before `x` starts.
  abbrev pub EndsBefore : ℕ → ℕ → Type 0
  EndsBefore x y = end_of (ep y) <ℤ (ep x).episode_start

  -- `y` does not end after `x`.
  abbrev pub EndsUpTo : ℕ → ℕ → Type 0
  EndsUpTo x y = end_of (ep y) ≤ℤ end_of (ep x)

  -- The coverage of a set of candidates.
  unfoldable pub total_width : List ℕ → ℤ
  total_width [] = pos 0
  total_width (x ∷ xs) = total_width xs +ℤ width (ep x)

  -- `s` is a chain of candidates of `ds` in which `Fits` holds throughout, of greatest coverage.
  pub record BestAmong (Fits : ℕ → Type 0) (ds : List ℕ) (s : Selection) : Type 0 where
    pub chain : List ℕ
    pub picked : Pick EndsBefore chain ds
    pub fits : All Fits chain
    pub indexes : s.indexes ≡ reverse chain
    pub coverage : s.coverage ≡ total_width chain
    pub greatest : (c : List ℕ) → Pick EndsBefore c ds → All Fits c → total_width c ≤ℤ s.coverage

  abbrev pub Anything : ℕ → Type 0
  Anything x = Unit

  unfoldable pub Best : List ℕ → Selection → Type 0
  Best = BestAmong Anything

  pub All-Anything : (c : List ℕ) → All Anything c
  All-Anything [] = tt
  All-Anything (x ∷ xs) = (tt, All-Anything xs)

  -- The table: the best selections for a list and for each of its ends, down to the empty one.
  abbrev pub Table : List ℕ → List Selection → Type 0
  Table ds [] = ⊥
  Table [] (s ∷ []) = Best [] s
  Table [] (s ∷ t ∷ ss) = ⊥
  Table (d ∷ ds) (s ∷ ss) = Best (d ∷ ds) s × Table ds ss

  restrict :
      (P : ℕ → Type 0) (ds : List ℕ) (s : Selection) → All P ds → Best ds s → BestAmong P ds s
  unfolding Best
  restrict P ds s h b = record {
    chain = b.chain;
    picked = b.picked;
    fits = Pick-All P b.picked h;
    indexes = b.indexes;
    coverage = b.coverage;
    greatest = λ c p f. b.greatest c p (All-Anything c);
  }

  -- A chain whose elements fit leaves out a head that does not.
  leave_head :
      (P : ℕ → Type 0) {d : ℕ} {ds c : List ℕ}
      → ¬ (P d)
      → Pick EndsBefore c (d ∷ ds)
      → All P c
      → Pick EndsBefore c ds
  leave_head P h (skip p) f = p
  leave_head P h (keep r p) f = absurd (h f.0)

  later_head :
      (P : ℕ → Type 0) {d : ℕ} {ds : List ℕ} {s : Selection}
      → ¬ (P d)
      → BestAmong P ds s
      → BestAmong P (d ∷ ds) s
  later_head P h b = record {
    chain = b.chain;
    picked = skip b.picked;
    fits = b.fits;
    indexes = b.indexes;
    coverage = b.coverage;
    greatest = λ c p f. b.greatest c (leave_head P h p f) f;
  }

  -- The scan finds the best selection of candidates that end before `start`.
  pub BestAmong-previous :
      (start : ℤ) (ds : List ℕ) (ss : List Selection)
      → Ordered EndsUpTo ds
      → Table ds ss
      → BestAmong (λ y. end_of (ep y) <ℤ start) ds (previous_selection ep start ds ss)
  unfolding previous_selection
  BestAmong-previous start [] [] o t = elim t [ ]
  BestAmong-previous start [] (s ∷ []) o t = restrict _ [] s tt t
  BestAmong-previous start [] (s ∷ s' ∷ ss) o t = elim t [ ]
  BestAmong-previous start (d ∷ ds) [] o t = elim t [ ]
  BestAmong-previous start (d ∷ ds) (s ∷ ss) o t =
      let earlier = BestAmong-previous start ds ss o.1 t.1 in
      elim (Bool-cases (ltb_ℤ (end_of (ep d)) start)) [
        | inl ends ↦
            rw ends (restrict _ (d ∷ ds) s (below (ltb_ℤ→lt (end_of (ep d)) start ends)) t.0)
        | inr runs ↦
            rw runs (later_head _ (λ h. omega (arith, ltb_ℤ→le (end_of (ep d)) start runs)) earlier)
      ]
    where
      below : end_of (ep d) <ℤ start → All (λ y. end_of (ep y) <ℤ start) (d ∷ ds)
      below h = (h, All-map (EndsUpTo d) (λ y. end_of (ep y) <ℤ start) ds (λ y k. omega arith) o.0)

  pub Best-latest : (ds : List ℕ) (ss : List Selection) → Table ds ss → Best ds (latest ss)
  unfolding latest
  Best-latest [] [] t = elim t [ ]
  Best-latest [] (s ∷ []) t = t
  Best-latest [] (s ∷ s' ∷ ss) t = elim t [ ]
  Best-latest (d ∷ ds) [] t = elim t [ ]
  Best-latest (d ∷ ds) (s ∷ ss) t = t.0

  -- A selection that adds candidate `i` to the best one that it can follow.
  unfoldable pub Follows : ℕ → List ℕ → Selection → Selection → Type 0
  Follows i ds previous include =
      BestAmong (EndsBefore i) ds previous
      × (include.indexes ≡ previous.indexes ++ i ∷ [])
      × (include.coverage ≡ previous.coverage +ℤ width (ep i))

  -- No chain with `i` in front covers more than `m`, if none without it does and none behind it covers
  -- more than `m` less the width of `i`.
  chain_bound :
      (i : ℕ) (ds : List ℕ) (previous s : Selection) (m : ℤ)
      → BestAmong (EndsBefore i) ds previous
      → Best ds s
      → s.coverage ≤ℤ m
      → previous.coverage +ℤ width (ep i) ≤ℤ m
      → (c : List ℕ) → Pick EndsBefore c (i ∷ ds)
      → total_width c ≤ℤ m
  unfolding Best total_width
  chain_bound i ds previous s m b other h k c (skip p) =
      let g = other.greatest c p (All-Anything c) in omega arith
  chain_bound i ds previous s m b other h k (_ ∷ c) (keep f p) =
      let g = b.greatest c p f in omega int_laws

  pub included :
      (i : ℕ) (ds : List ℕ) (previous include s : Selection)
      → Follows i ds previous include
      → Best ds s
      → s.coverage ≤ℤ include.coverage
      → Best (i ∷ ds) include
  unfolding Best total_width Follows
  included i ds previous include s (b, e, v) other more = record {
    chain = i ∷ b.chain;
    picked = keep b.fits b.picked;
    fits = All-Anything (i ∷ b.chain);
    indexes = e ∙ ap (λ l. l ++ i ∷ []) b.indexes ∙ sym (reverse-append (i ∷ []) b.chain);
    coverage = v ∙ ap (λ t. t +ℤ width (ep i)) b.coverage;
    greatest = λ c p f.
        chain_bound i ds previous s include.coverage b other more
          (let above = ap pos_part v in let below = ap neg_part v in omega arith) c p;
  }

  pub excluded :
      (i : ℕ) (ds : List ℕ) (previous include s : Selection)
      → Follows i ds previous include
      → Best ds s
      → include.coverage ≤ℤ s.coverage
      → Best (i ∷ ds) s
  unfolding Best total_width Follows
  excluded i ds previous include s (b, e, v) other less = record {
    chain = other.chain;
    picked = skip other.picked;
    fits = other.fits;
    indexes = other.indexes;
    coverage = other.coverage;
    greatest = λ c p f.
        chain_bound i ds previous s s.coverage b other (omega arith)
          (let above = ap pos_part v in let below = ap neg_part v in omega arith) c p;
  }
