-- ===== src/Client/Pages/Fetched.antt =====
-- What a list that `pages` returns is made of.
use sonarr_remediator.Base.{
  ℤ, pos, negsuc, ltb_ℤ, leb_ℤ, ◌<ℤ◌, ℕ, zero, suc, ◌≤◌, ◌+◌, ◌≡◌, refl, sym, ap, subst, ◌∙◌,
  String, inl, inr, false, ◌||◌, Option, none, some, List, [], ◌∷◌, ◌++◌, ◌==◌, ◌!=◌, int_eq,
  int_beq_iff, nat_eq, if◌then◌else◌, contains, is_none, int_at, length, elements, arith,
  Bool-cases, Result, ok, err, >>=-eq-ok, ok-injective, Result-cases,
}
use sonarr_remediator.Client.Pages.{Page, Gathered, page_invalid, see, take_page, pages_from, pages}

-- The pages 1 to `k`, each read once and with this total, one after the other.
pub data Fetched {ℓ} {T : Type ℓ} (fetch : ℕ → Result (Page T)) (total : ℤ)
    : ℕ → List T → Type ℓ where
  no_page : Fetched fetch total zero []
  one_page :
      {k : ℕ} {xs : List T} (p : Page T)
      → Fetched fetch total k xs
      → fetch (suc k) ≡ ok p
      → p.total ≡ some total
      → Fetched fetch total (suc k) (xs ++ elements p.records)

err-ne-ok {ℓ} : {A : Type ℓ} {why : String} {a : A} → err why ≡ ok a → ⊥
err-ne-ok h = cc

module _ {ℓ} {T : Type ℓ} (id : T → ℤ) where
  -- The ids are positive, new, and not repeated.
  abbrev pub IsFresh : List ℤ → List T → Type 0
  IsFresh seen [] = Unit
  IsFresh seen (r ∷ rest) =
      (pos 0 <ℤ id r) × (contains seen (id r) ≡ false) × IsFresh (id r ∷ seen) rest

  pub see-IsFresh : (seen s : List ℤ) (rs : List T) → see id seen rs ≡ ok s → IsFresh seen rs
  unfolding see
  see-IsFresh seen s [] h = tt
  see-IsFresh seen s (r ∷ rs) h = elim (Bool-cases (leb_ℤ (id r) (pos 0) || contains seen (id r))) [
    | inl y ↦ absurd (ground arith)
    | inr n ↦ (ground arith, ground arith, see-IsFresh (id r ∷ seen) s rs (ground arith))
  ]

  pub see-append :
      (seen s : List ℤ) (xs ys : List T)
      → see id seen xs ≡ ok s
      → see id seen (xs ++ ys) ≡ see id s ys
  unfolding see
  see-append seen s [] ys h = ground arith
  see-append seen s (x ∷ xs) ys h =
      elim (Bool-cases (leb_ℤ (id x) (pos 0) || contains seen (id x))) [
        | inl y ↦ absurd (ground arith)
        | inr n ↦ ground (arith, see-append (id x ∷ seen) s xs ys)
      ]

  -- What a page that joins has passed.
  pub take_page-Joined :
      (max_pages n : ℕ) (g h : Gathered T) (p : Page T)
      → take_page id max_pages n g p ≡ ok h
      → (page_invalid id max_pages n p ≡ false)
        × ((if ltb_ℤ g.total (pos 0) then int_at p.total else g.total) ≡ int_at p.total)
        × (see id g.seen (elements p.records) ≡ ok h.seen)
        × (h.all ≡ g.all ++ elements p.records)
        × (h.total ≡ int_at p.total)
  unfolding take_page
  take_page-Joined max_pages n g h p e =
      let total = if ltb_ℤ g.total (pos 0) then int_at p.total else g.total in
      let all = g.all ++ elements p.records in
      elim (Bool-cases (page_invalid id max_pages n p)) [
        | inl y ↦ absurd (ground arith)
        | inr a ↦ elim (Bool-cases (total != int_at p.total)) [
          | inl y ↦ absurd (ground arith)
          | inr b ↦ elim (Result-cases (see id g.seen (elements p.records))) [
            | inr (why, s) ↦ absurd (ground arith)
            | inl (seen, s) ↦ elim (Bool-cases (ltb_ℤ total (pos (length all)))) [
              | inl y ↦ absurd (ground arith)
              | inr c ↦
                  let same : total ≡ int_at p.total =
                    (int_beq_iff total (int_at p.total)).0 (ground arith) in
                  let made : ok (record { all = all; seen = seen; total = total }) ≡ ok h =
                    sym (rw (a, b, s, c, take_page) refl) ∙ e in
                  let joined : record { all = all; seen = seen; total = total } ≡ h =
                    ok-injective made in
                  (
                    a,
                    same,
                    s ∙ ap (λ (x : Gathered T). ok x.seen) joined,
                    ap (λ (x : Gathered T). x.all) (sym joined),
                    ap (λ (x : Gathered T). x.total) (sym joined) ∙ same,
                  )
            ]
          ]
        ]
      ]

  -- The list has the announced total, is made of pages that were read, and its ids are positive and
  -- different.
  abbrev pub IsComplete : (ℕ → Result (Page T)) → ℕ → List T → Type ℓ
  IsComplete fetch most all =
      (m : ℕ) × (m ≤ most) × Fetched fetch (pos (length all)) m all × IsFresh [] all

  -- The first `k` pages have been read: with the total that stands, if one does.
  abbrev Sofar : (ℕ → Result (Page T)) → ℕ → Gathered T → Type ℓ
  Sofar fetch k g =
      (t : ℤ) → (ltb_ℤ g.total (pos 0) ≡ false → t ≡ g.total) → Fetched fetch t k g.all

  total_known :
      (max_pages n : ℕ) (p : Page T)
      → page_invalid id max_pages n p ≡ false
      → (p.total ≡ some (int_at p.total)) × (ltb_ℤ (int_at p.total) (pos 0) ≡ false)
  unfolding page_invalid
  total_known max_pages n p h = known p.total (ground arith) (ground arith)
    where
      known :
          (o : Option ℤ)
          → is_none o ≡ false
          → ltb_ℤ (int_at o) (pos 0) ≡ false
          → (o ≡ some (int_at o)) × (ltb_ℤ (int_at o) (pos 0) ≡ false)
      known none a b = absurd (ground arith)
      known (some t) a b = (refl, b)

  take_page-Sofar :
      (fetch : ℕ → Result (Page T)) (max_pages k : ℕ) (g h : Gathered T) (p : Page T)
      → Sofar fetch k g
      → fetch (suc k) ≡ ok p
      → take_page id max_pages (suc k) g p ≡ ok h
      → Sofar fetch (suc k) h
  take_page-Sofar fetch max_pages k g h p sofar f e t same =
      let (valid, total, s, all, stands) = take_page-Joined max_pages (suc k) g h p e in
      let (some_total, nonneg) = total_known max_pages (suc k) p valid in
      let now : t ≡ int_at p.total = same (rw stands nonneg) ∙ stands in
      subst (Fetched fetch t (suc k)) (sym all) (
        one_page p (sofar t (λ known. now ∙ before g.total total known)) f
          (some_total ∙ ap some (sym now)))
    where
      before :
          (u : ℤ)
          → (if ltb_ℤ u (pos 0) then int_at p.total else u) ≡ int_at p.total
          → ltb_ℤ u (pos 0) ≡ false
          → int_at p.total ≡ u
      before u e known = ground arith

  pages_from-IsComplete :
      (fetch : ℕ → Result (Page T)) (max_pages left k : ℕ) (g : Gathered T) (all : List T)
      → Sofar fetch k g
      → see id [] g.all ≡ ok g.seen
      → pages_from id fetch max_pages left (suc k) g ≡ ok all
      → IsComplete fetch (left + k) all
  unfolding pages_from
  pages_from-IsComplete fetch max_pages zero k g all sofar s e = cc
  pages_from-IsComplete fetch max_pages (suc left) k g all sofar s e =
      let (p, f, e1) = >>=-eq-ok (fetch (suc k)) _ e in
      let (h, j, e2) = >>=-eq-ok (take_page id max_pages (suc k) g p) _ e1 in
      let sofar' = take_page-Sofar fetch max_pages k g h p sofar f j in
      let (valid, total, s1, joined, stands) = take_page-Joined max_pages (suc k) g h p j in
      let s' : see id [] h.all ≡ ok h.seen =
        rw joined (see-append [] g.seen g.all (elements p.records) s ∙ s1) in
      elim (Bool-cases (pos (length h.all) == h.total)) [
        | inl y ↦
            let done : h.all ≡ all = ok-injective (sym (rw y refl) ∙ e2) in
            subst (IsComplete fetch (suc left + k)) done (
              suc k,
              omega arith,
              sofar' (pos (length h.all)) (λ _. (int_beq_iff (pos (length h.all)) h.total).0 y),
              see-IsFresh [] h.seen h.all s',
            )
        | inr n ↦ elim (Bool-cases (length (elements p.records) != 100)) [
          | inl y ↦ absurd (err-ne-ok {why = "incomplete Sonarr page"} (sym (rw (n, y) refl) ∙ e2))
          | inr m ↦
              let (j', le, got, fresh) =
                pages_from-IsComplete fetch max_pages left (suc k) h all sofar' s'
                  (sym (rw (n, m) refl) ∙ e2) in
              (j', omega (arith, le), got, fresh)
        ]
      ]

  -- A list that `pages` returns has exactly the total that each page announced, is what the pages 1 to
  -- `m` hold, in order, for an `m` up to the limit, and its ids are positive and different.
  pub pages-IsComplete :
      (fetch : ℕ → Result (Page T)) (max_pages : ℕ) (all : List T)
      → pages id fetch max_pages ≡ ok all
      → IsComplete fetch max_pages all
  unfolding pages see
  pages-IsComplete fetch max_pages all e =
      let (m, le, got, fresh) =
        pages_from-IsComplete fetch max_pages max_pages 0
          (record { all = []; seen = []; total = negsuc 0 }) all (λ t known. no_page) refl e in
      (m, omega (arith, le), got, fresh)
