-- ===== src/Policy/Unexpected.antt =====
-- internal/policy/policy.go, `unexpectedEpisodeRejection`: the expression
-- `^(?:Episode N was|Episodes N(?:, N)+ were) unexpected considering the .+ folder name$`
-- with N = `[0-9]+x[0-9]{2,}`, as a matcher over the code points. What follows a run of digits is
-- never a digit, so a run is taken whole and nothing is tried twice.
use sonarr_remediator.Base.{
  codes, ℕ, zero, suc, leb, String, Bool, true, false, ◌&&◌, not, Option, none, some, List, [], ◌∷◌,
  ◌==◌, nat_eq, if◌then◌else◌, length, all, any, ◌≡◌, refl,
}

is_digit : ℕ → Bool
is_digit c = leb b'0' c && leb c b'9'

-- The text behind a literal, if it begins with that.
literal : List ℕ → List ℕ → Option (List ℕ)
literal [] s = some s
literal (c ∷ cs) [] = none
literal (c ∷ cs) (d ∷ s) = let rest = literal cs s in if c == d then rest else none

-- The number of digits in front, and the text behind them.
digits : List ℕ → ℕ × List ℕ
digits [] = (0, [])
digits (c ∷ s) = let rest = digits s in if is_digit c then (suc rest.0, rest.1) else (0, c ∷ s)

infixl 5 ◌>>=◌
abbrev ◌>>=◌ {ℓ κ} : {A : Type ℓ} {B : Type κ} → Option A → (A → Option B) → Option B
none >>= f = none
some a >>= f = f a

abbrev at_least : ℕ → ℕ × List ℕ → Option (List ℕ)
at_least n (k, s) = if leb n k then some s else none

-- `[0-9]+x[0-9]{2,}`.
episode_number : List ℕ → Option (List ℕ)
unfolding digits is_digit literal
episode_number s = do
  s1 ← at_least 1 (digits s)
  s2 ← literal (codes "x") s1
  at_least 2 (digits s2)

-- `(?:, N)*`, with the rounds made; each takes at least one character.
more_numbers : ℕ → ℕ → List ℕ → ℕ × List ℕ
more_numbers zero k s = (k, s)
more_numbers (suc fuel) k s = elim (literal (codes ", ") s >>= episode_number) [
  | none ↦ (k, s)
  | some s' ↦ more_numbers fuel (suc k) s'
]

-- `.+ folder name$`: `.` is any character but a line feed.
ends_with : List ℕ → List ℕ → Bool
ends_with suffix [] = false
ends_with suffix (c ∷ s) =
    let rest = ends_with suffix s in elim (literal suffix s) [ some [] ↦ true | _ ↦ rest ]

folder : List ℕ → Bool
unfolding ends_with
folder s = all (λ c. not (c == 10)) s && ends_with (codes " folder name") s

subject : List ℕ → Option (List ℕ)
unfolding episode_number more_numbers
subject s = elim (literal (codes "Episode ") s) [
  | some r ↦ do r1 ← episode_number r; literal (codes " was") r1
  | none ↦ do
    r ← literal (codes "Episodes ") s
    r1 ← episode_number r
    r2 ← at_least 1 (more_numbers (length r1) 0 r1)
    literal (codes " were") r2
]

abbrev holds_of : Option (List ℕ) → (List ℕ → Bool) → Bool
holds_of none p = false
holds_of (some s) p = p s

unfoldable pub is_unexpected_episode : String → Bool
unfolding subject folder
is_unexpected_episode reason =
    holds_of (subject (codes reason) >>= literal (codes " unexpected considering the ")) folder

samples_match :
    all is_unexpected_episode (
      "Episode 1x02 was unexpected considering the Show.S01E03 folder name"
      ∷ "Episodes 1x02, 10x113 were unexpected considering the a folder name folder name" ∷ [])
    ≡ true
unfolding is_unexpected_episode
samples_match = refl

samples_differ :
    any is_unexpected_episode (
      "Episode 1x2 was unexpected considering the Show folder name"
      ∷ "Episodes 1x02 were unexpected considering the Show folder name"
      ∷ "Episode 1x02 was unexpected considering the  folder name"
      ∷ "Episode 1x02 was unexpected considering the folder name"
      ∷ "xEpisode 1x02 was unexpected considering the Show folder name" ∷ [])
    ≡ false
unfolding is_unexpected_episode
samples_differ = refl
