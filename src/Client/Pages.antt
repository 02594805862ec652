-- ===== src/Client/Pages.antt =====
-- internal/sonarr/client.go, `pages`: a list that Sonarr gives in pages of a hundred.

pub mod Fetched
pub mod Honest
use sonarr_remediator.Base.{
  ℤ, pos, negsuc, ltb_ℤ, leb_ℤ, ℕ, zero, suc, ◌*◌, ltb, String, Bool, true, false, ◌&&◌, ◌||◌, not,
  Option, none, some, List, [], ◌∷◌, ◌++◌, ◌==◌, ◌!=◌, int_eq, nat_eq, if◌then◌else◌, contains,
  is_none, int_at, length, elements, Result, ok, err, ◌>>=◌, ◌>>◌, refuse,
}

-- `page[T]`.
pub record Page {ℓ} (T : Type ℓ) : Type ℓ where
  pub page : Option ℤ
  pub page_size : Option ℤ
  pub total : Option ℤ
  pub records : Option (List T)

-- The variables of the loop; `total` is -1 before the first page.
pub record Gathered {ℓ} (T : Type ℓ) : Type ℓ where
  pub all : List T
  pub seen : List ℤ
  pub total : ℤ

module _ {ℓ} {T : Type ℓ} (id : T → ℤ) where
  unfoldable pub page_invalid : ℕ → ℕ → Page T → Bool
  page_invalid max_pages n p =
      is_none p.page
      || int_at p.page != pos n
      || is_none p.page_size
      || int_at p.page_size != pos 100
      || is_none p.total
      || ltb_ℤ (int_at p.total) (pos 0)
      || ltb_ℤ (pos (max_pages * 100)) (int_at p.total)
      || is_none p.records
      || ltb 100 (length (elements p.records))

  -- The loop over the records: the ids that have been seen.
  unfoldable pub see : List ℤ → List T → Result (List ℤ)
  see seen [] = ok seen
  see seen (r ∷ rest) =
      refuse (leb_ℤ (id r) (pos 0) || contains seen (id r)) "invalid or duplicated Sonarr identity"
      >> see (id r ∷ seen) rest

  -- A page joins what has been gathered.
  unfoldable pub take_page : ℕ → ℕ → Gathered T → Page T → Result (Gathered T)
  take_page max_pages n g p = do
    refuse (page_invalid max_pages n p) "invalid Sonarr pagination"
    let total = if ltb_ℤ g.total (pos 0) then int_at p.total else g.total
    refuse (total != int_at p.total) "changing Sonarr pagination"
    seen ← see g.seen (elements p.records)
    refuse (ltb_ℤ total (pos (length (g.all ++ elements p.records)))) "inconsistent Sonarr total"
    ok (record { all = g.all ++ elements p.records; seen = seen; total = total })

  -- The loop, with the rounds that are left.
  unfoldable pub pages_from : (ℕ → Result (Page T)) → ℕ → ℕ → ℕ → Gathered T → Result (List T)
  pages_from fetch max_pages zero n g = err "Sonarr pagination limit exceeded"
  pages_from fetch max_pages (suc left) n g = fetch n >>= λ p. take_page max_pages n g p >>= λ h.
      let rest = pages_from fetch max_pages left (suc n) h in
      if pos (length h.all) == h.total
      then ok h.all
      else if length (elements p.records) != 100
      then err "incomplete Sonarr page"
      else rest

  -- `pages`: `fetch` asks for a page by its number.
  unfoldable pub pages : (ℕ → Result (Page T)) → ℕ → Result (List T)
  pages fetch max_pages =
      pages_from fetch max_pages max_pages 1 (record { all = []; seen = []; total = negsuc 0 })
