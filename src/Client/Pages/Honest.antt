-- ===== src/Client/Pages/Honest.antt =====
-- A server that gives its list in pages, and that `pages` gets all of it.
use sonarr_remediator.Base.{
  ℤ, pos, negsuc, ltb_ℤ, leb_ℤ, ℕ, zero, suc, ◌≤◌, ◌<◌, ◌+◌, ◌-◌, ◌*◌, ◌≡◌, refl, sym, ap, subst,
  ◌∙◌, inl, inr, ◌⊎◌, Bool, true, false, ◌||◌, some, List, [], ◌∷◌, ◌++◌, ◌==◌, ◌!=◌, int_eq,
  int_beq, nat_eq, if◌then◌else◌, contains, length, take, drop, take-drop, drop-append, length-take,
  length-take-le, take_all, length-append, arith, Bool-cases, leb, Result, ok, ok-injective, err,
}
use sonarr_remediator.Client.Pages.{Page, page_invalid, see, take_page, pages_from, pages}
use sonarr_remediator.Client.Pages.Fetched.{IsFresh, see-append}

-- The page `n` of a list, from 1.
unfoldable pub page_of {ℓ} : {T : Type ℓ} → List T → ℕ → Page T
page_of xs n = record {
  page = some (pos n);
  page_size = some (pos 100);
  total = some (pos (length xs));
  records = some (take 100 (drop ((n - 1) * 100) xs));
}

pos_differ : (a b : ℕ) → a < b → (pos a == pos b) ≡ false
unfolding int_beq
pos_differ a b h = ground arith

within_hundred : (n : ℕ) → leb n 100 ≡ true → n ≤ 100
within_hundred n h = ground arith

above_hundred : (n : ℕ) → leb n 100 ≡ false → 100 < n
above_hundred n h = ground arith

module _ {ℓ} {T : Type ℓ} (id : T → ℤ) where
  IsFresh-see :
      (seen : List ℤ) (rs : List T) → IsFresh id seen rs → (s : List ℤ) × (see id seen rs ≡ ok s)
  unfolding see
  IsFresh-see seen [] h = (seen, refl)
  IsFresh-see seen (r ∷ rs) h =
      let (s, e) = IsFresh-see (id r ∷ seen) rs h.2 in
      let fine : (leb_ℤ (id r) (pos 0) || contains seen (id r)) ≡ false = ground arith in
      (s, rw (fine, see) e)

  IsFresh-append :
      (seen s : List ℤ) (xs ys : List T)
      → IsFresh id seen (xs ++ ys)
      → see id seen xs ≡ ok s
      → IsFresh id s ys
  unfolding see
  IsFresh-append seen s [] ys f h = subst (λ z. IsFresh id z ys) (ok-injective h) f
  IsFresh-append seen s (x ∷ xs) ys f h = IsFresh-append (id x ∷ seen) s xs ys f.2 (
      let fine : (leb_ℤ (id x) (pos 0) || contains seen (id x)) ≡ false = ground arith in
      ground arith)

  -- A page as it comes.
  abbrev whole_page : ℕ → ℕ → List T → Page T
  whole_page n total rs = record {
    page = some (pos n);
    page_size = some (pos 100);
    total = some (pos total);
    records = some rs;
  }

  page_of-slice :
      (xs done todo : List T) (k : ℕ)
      → xs ≡ done ++ todo
      → length done ≡ k * 100
      → page_of xs (suc k) ≡ whole_page (suc k) (length xs) (take 100 todo)
  unfolding page_of
  page_of-slice xs done todo k e h =
      let skip : (suc k - 1) * 100 ≡ k * 100 = omega arith in
      let rest : drop ((suc k - 1) * 100) xs ≡ todo =
        ap (λ m. drop m xs) skip ∙ ap (drop (k * 100)) e ∙ drop-append (k * 100) done todo h in
      ap (λ ys. whole_page (suc k) (length xs) (take 100 ys)) rest

  take_page-whole :
      (max_pages n total : ℕ) (done rs : List T) (seen s : List ℤ) (before : ℤ)
      → total ≤ max_pages * 100
      → length rs ≤ 100
      → (before ≡ negsuc 0) ⊎ (before ≡ pos total)
      → length (done ++ rs) ≤ total
      → see id seen rs ≡ ok s
      → take_page id max_pages n
          (record { all = done; seen = seen; total = before })
          (whole_page n total rs)
        ≡ ok (record { all = done ++ rs; seen = s; total = pos total })
  unfolding take_page page_invalid int_beq
  take_page-whole max_pages n total done rs seen s before small few known within e =
      let total' = if ltb_ℤ before (pos 0) then pos total else before in
      let stands : total' ≡ pos total = stand known in
      let a : page_invalid id max_pages n (whole_page n total rs) ≡ false = ground arith in
      let b : (total' != pos total) ≡ false = rw stands (ground arith) in
      let c : ltb_ℤ total' (pos (length (done ++ rs))) ≡ false = rw stands (ground arith) in
      rw (a, b, e, c, take_page)
        (ap (λ t. ok (record { all = done ++ rs; seen = s; total = t })) stands)
    where
      same : (b : Bool) → (if b then pos total else pos total) ≡ pos total
      same true = refl
      same false = refl

      stand :
          (before ≡ negsuc 0) ⊎ (before ≡ pos total)
          → (if ltb_ℤ before (pos 0) then pos total else before) ≡ pos total
      stand (inl u) = rw u refl
      stand (inr u) = rw u (same (ltb_ℤ (pos total) (pos 0)))

  IsFresh-prefix :
      (seen : List ℤ) (xs ys : List T) → IsFresh id seen (xs ++ ys) → IsFresh id seen xs
  IsFresh-prefix seen [] ys f = tt
  IsFresh-prefix seen (x ∷ xs) ys f = (f.0, f.1, IsFresh-prefix (id x ∷ seen) xs ys f.2)

  append_assoc : (xs ys zs : List T) → (xs ++ ys) ++ zs ≡ xs ++ (ys ++ zs)
  append_assoc [] ys zs = refl
  append_assoc (x ∷ xs) ys zs = ap (λ rest. x ∷ rest) (append_assoc xs ys zs)

  append-nil : (xs : List T) → xs ++ [] ≡ xs
  append-nil [] = refl
  append-nil (x ∷ xs) = ap (λ rest. x ∷ rest) (append-nil xs)

  -- One round of the loop, on the next page of the server.
  pages_from-round :
      (max_pages left k : ℕ) (xs done todo : List T) (seen s : List ℤ) (before : ℤ)
      → xs ≡ done ++ todo
      → length done ≡ k * 100
      → length xs ≤ max_pages * 100
      → (before ≡ negsuc 0) ⊎ (before ≡ pos (length xs))
      → see id seen (take 100 todo) ≡ ok s
      → pages_from id
          (λ n. ok (page_of xs n))
          max_pages
          (suc left)
          (suc k)
          (record { all = done; seen = seen; total = before })
        ≡ (if pos (length (done ++ take 100 todo)) == pos (length xs)
            then ok (done ++ take 100 todo)
            else if length (take 100 todo) != 100
            then err "incomplete Sonarr page"
            else pages_from id
                (λ n. ok (page_of xs n))
                max_pages
                left
                (suc (suc k))
                (record { all = done ++ take 100 todo; seen = s; total = pos (length xs) }))
  unfolding pages_from
  pages_from-round max_pages left k xs done todo seen s before e h small known f =
      let within : length (done ++ take 100 todo) ≤ length xs = omega (
        arith,
        ap length e,
        ap length (take-drop 100 todo),
        length-append {ℓ} done todo,
        length-append {ℓ} done (take 100 todo),
        length-append {ℓ} (take 100 todo) (drop 100 todo),
      ) in
      rw
        (
          page_of-slice xs done todo k e h,
          take_page-whole max_pages (suc k) (length xs) done (take 100 todo) seen s before small
              (length-take-le 100 todo) known within f,
          pages_from,
        )
        refl

  -- The round that reads the rest.
  last_round :
      (xs done todo : List T) (m : ℕ) (more : Result (List T))
      → xs ≡ done ++ todo
      → length todo ≤ 100
      → (if pos (length (done ++ take 100 todo)) == pos (length xs)
          then ok (done ++ take 100 todo)
          else if m != 100
          then err "incomplete Sonarr page"
          else more)
        ≡ ok xs
  unfolding int_beq
  last_round xs done todo m more e h =
      let all : done ++ take 100 todo ≡ xs = ap (λ ys. done ++ ys) (take_all 100 todo h) ∙ sym e in
      let y : (pos (length (done ++ take 100 todo)) == pos (length xs)) ≡ true =
        rw all (ground arith) in
      rw y (ap ok all)

  -- A round before that.
  other_round :
      (xs done todo : List T) (more : Result (List T))
      → xs ≡ done ++ todo
      → 100 < length todo
      → (if pos (length (done ++ take 100 todo)) == pos (length xs)
          then ok (done ++ take 100 todo)
          else if length (take 100 todo) != 100
          then err "incomplete Sonarr page"
          else more)
        ≡ more
  unfolding int_beq
  other_round xs done todo more e h =
      let full : length (take 100 todo) ≡ 100 = length-take 100 todo (omega (arith, h)) in
      let short : length (done ++ take 100 todo) ≡ length done + 100 =
        omega (arith, full, length-append {ℓ} done (take 100 todo)) in
      let whole : length xs ≡ length done + length todo =
        omega (arith, ap length e, length-append {ℓ} done todo) in
      let n : (pos (length (done ++ take 100 todo)) == pos (length xs)) ≡ false =
        pos_differ (length (done ++ take 100 todo)) (length xs) (omega (arith, short, whole, h)) in
      let m : (length (take 100 todo) != 100) ≡ false = rw full refl in rw (n, m) refl

  pages_from-page_of :
      (max_pages left k : ℕ) (xs done todo : List T) (seen : List ℤ) (before : ℤ)
      → xs ≡ done ++ todo
      → length done ≡ k * 100
      → length todo ≤ suc left * 100
      → suc left + k ≡ max_pages
      → (before ≡ negsuc 0) ⊎ (before ≡ pos (length xs))
      → see id [] done ≡ ok seen
      → IsFresh id [] xs
      → pages_from id
          (λ n. ok (page_of xs n))
          max_pages
          (suc left)
          (suc k)
          (record { all = done; seen = seen; total = before })
        ≡ ok xs
  pages_from-page_of max_pages zero k xs done todo seen before e h few rounds known f fresh =
      let parts : length xs ≡ length done + length todo =
        omega (arith, ap length e, length-append {ℓ} done todo) in
      let rest : IsFresh id seen todo =
        IsFresh-append [] seen done todo (subst (IsFresh id []) e fresh) f in
      let (s, g) = IsFresh-see seen (take 100 todo) (
        IsFresh-prefix seen (take 100 todo) (drop 100 todo)
          (subst (IsFresh id seen) (sym (take-drop 100 todo)) rest)) in
      let round =
        pages_from-round max_pages zero k xs done todo seen s before e h
          (omega (arith, parts, h, few, rounds)) known g in
      round ∙ last_round xs done todo (length (take 100 todo)) _ e few
  pages_from-page_of max_pages (suc left) k xs done todo seen before e h few rounds known f fresh =
      let parts : length xs ≡ length done + length todo =
        omega (arith, ap length e, length-append {ℓ} done todo) in
      let rest : IsFresh id seen todo =
        IsFresh-append [] seen done todo (subst (IsFresh id []) e fresh) f in
      let (s, g) = IsFresh-see seen (take 100 todo) (
        IsFresh-prefix seen (take 100 todo) (drop 100 todo)
          (subst (IsFresh id seen) (sym (take-drop 100 todo)) rest)) in
      let round =
        pages_from-round max_pages (suc left) k xs done todo seen s before e h
          (omega (arith, parts, h, few, rounds)) known g in
      elim (Bool-cases (leb (length todo) 100)) [
        | inl y ↦
            round
            ∙ last_round xs done todo (length (take 100 todo)) _ e (within_hundred (length todo) y)
        | inr n ↦
            let long : 100 < length todo = above_hundred (length todo) n in
            let full : length (take 100 todo) ≡ 100 = length-take 100 todo (omega (arith, long)) in
            round
            ∙ other_round xs done todo _ e long
            ∙ pages_from-page_of max_pages left (suc k) xs (done ++ take 100 todo) (drop 100 todo) s
                (pos (length xs))
                (e
                  ∙ ap (λ ys. done ++ ys) (sym (take-drop 100 todo))
                  ∙ sym (append_assoc done (take 100 todo) (drop 100 todo)))
                (omega (arith, h, full, length-append {ℓ} done (take 100 todo)))
                (omega (
                  arith,
                  few,
                  full,
                  ap length (take-drop 100 todo),
                  length-append {ℓ} (take 100 todo) (drop 100 todo),
                ))
                (omega (arith, rounds)) (inr refl)
                (see-append id [] seen done (take 100 todo) f ∙ g) fresh
      ]

  -- A server that gives its list in pages of a hundred, with the length as the total, is read
  -- completely and in order, where the ids are positive and different and the list fits the limit.
  pub pages-page_of :
      (xs : List T) (max_pages : ℕ)
      → IsFresh id [] xs
      → 0 < max_pages
      → length xs ≤ max_pages * 100
      → pages id (λ n. ok (page_of xs n)) max_pages ≡ ok xs
  unfolding pages see
  pages-page_of xs zero fresh h small = absurd (omega (arith, h))
  pages-page_of xs (suc left) fresh h small =
      pages_from-page_of (suc left) left 0 xs [] xs [] (negsuc 0) refl (omega arith) small
        (omega arith) (inl refl) refl fresh
