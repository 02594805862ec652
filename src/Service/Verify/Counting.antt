-- ===== src/Service/Verify/Counting.antt =====
-- The loop of `verify` over the episodes of an import counts those that are done.
use sonarr_remediator.Base.{
  ℤ, ◌≤◌, ◌+◌, Time, ◌≡◌, inl, inr, true, List, [], ◌∷◌, ◌++◌, length, length-append, nat_eq,
  string_eq, All, arith, Bool-cases, ok, Result-cases,
}
use sonarr_remediator.Sonarr.{History, Episode, EpisodeFile, Profile}
use sonarr_remediator.State.{Attempt}
use sonarr_remediator.Service.Client.{Client, current}
use sonarr_remediator.Service.Verify.{Progress, halted, moved, is_done, note_event, verify_episodes}

-- The episode's state now is read, and is what the attempt was for.
abbrev pub Done : Client → Attempt → List History → Time → ℤ → Type 0
Done client a events now episode =
    (state : Episode × EpisodeFile × Profile) × (current client episode ≡ ok state)
    × (is_done a events now episode state ≡ true)

-- The loop counts at most all of its episodes, and all only if each is done.
abbrev pub Counted : Client → Attempt → List History → Time → List ℤ → List ℤ → Progress → Type 0
Counted client a events now episodes found (halted seen e) = Unit
Counted client a events now episodes found (moved seen all_found) =
    (length all_found ≤ length found + length episodes)
    × (length all_found ≡ length found + length episodes → All (Done client a events now) episodes)

Counted-more :
    (client : Client) (a : Attempt) (events : List History) (now : Time) (episode : ℤ)
    (rest found : List ℤ) (p : Progress)
    → Done client a events now episode
    → Counted client a events now rest (found ++ episode ∷ []) p
    → Counted client a events now (episode ∷ rest) found p
Counted-more client a events now episode rest found (halted seen e) done k = tt
Counted-more client a events now episode rest found (moved seen all_found) done k = (
  omega (arith, k.0, length-append found (episode ∷ [])),
  λ h. (done, k.1 (omega (arith, h, length-append found (episode ∷ [])))),
)

Counted-skip :
    (client : Client) (a : Attempt) (events : List History) (now : Time) (episode : ℤ)
    (rest found : List ℤ) (p : Progress)
    → Counted client a events now rest found p
    → Counted client a events now (episode ∷ rest) found p
Counted-skip client a events now episode rest found (halted seen e) k = tt
Counted-skip client a events now episode rest found (moved seen all_found) k =
    (omega (arith, k.0), λ h. absurd (omega (arith, h, k.0)))

pub verify_episodes-Counted :
    (client : Client) (a : Attempt) (events : List History) (now : Time)
    (episodes seen found : List ℤ)
    → Counted client a events now episodes found
        (verify_episodes client a events now episodes seen found)
unfolding verify_episodes
verify_episodes-Counted client a events now [] seen found = (ground arith, λ h. tt)
verify_episodes-Counted client a events now (episode ∷ rest) seen found =
    elim (Result-cases (current client episode)) [
      | inr (e, h) ↦ rw (h, verify_episodes) tt
      | inl (state, h) ↦ elim (Bool-cases (is_done a events now episode state)) [
        | inl y ↦
            rw (h, y, verify_episodes)
              (Counted-more client a events now episode rest found _ (state, h, y)
                (verify_episodes-Counted client a events now rest
                  (note_event a events now episode seen) (found ++ episode ∷ [])))
        | inr n ↦
            rw (h, n, verify_episodes)
              (Counted-skip client a events now episode rest found _ (
                verify_episodes-Counted client a events now rest
                  (note_event a events now episode seen) found))
      ]
    ]
