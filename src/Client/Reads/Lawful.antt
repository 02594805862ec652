-- ===== src/Client/Reads/Lawful.antt =====
-- What the service may rely on in the answers of the client.
use sonarr_remediator.Base.{
  ℤ, pos, ltb_ℤ, leb_ℤ, ◌<ℤ◌, ◌≤ℤ◌, ℕ, zero, suc, ◌≡◌, refl, sym, ◌∙◌, ap, inl, inr, String,
  is_blank, Bool, true, false, ◌&&◌, ◌||◌, not, List, [], ◌∷◌, ◌!=◌, int_eq, int_beq_iff, string_eq,
  string_beq_iff, int_at, any, All, arith, Bool-cases, Result, ok, err, ok-injective, ◌>>=◌,
  >>=-eq-ok, Result-cases,
}
use sonarr_remediator.Sonarr.{
  QueueRow, Command, History, Blocklist, Episode, EpisodeFile, Series, Profile,
}
use sonarr_remediator.Service.Client.{Client}
use sonarr_remediator.Client.Pages.{Page, pages}
use sonarr_remediator.Client.Pages.Fetched.{IsFresh, pages-IsComplete}
use sonarr_remediator.Client.Reads.{
  is_delayed, check_queue, row_id, queue_tries, queue, checked_resource, check_history, Exchanges,
  client_of,
}

-- A row names no impossible target, and a download unless it is delayed.
abbrev pub IsTracked : QueueRow → Type 0
IsTracked row =
    (pos 0 ≤ℤ int_at row.series_id)
    × (pos 0 ≤ℤ int_at row.episode_id)
    × (is_blank row.download_id ≡ true → is_delayed row ≡ true)

-- Every resource has the id that was asked for, a history is of the download, and the lists have
-- positive and different ids.
pub record IsLawful (client : Client) : Type 0 where
  pub queue_fresh : (rows : List QueueRow) → client.queue ≡ ok rows → IsFresh row_id [] rows
  pub queue_tracked : (rows : List QueueRow) → client.queue ≡ ok rows → All IsTracked rows
  pub history_fresh :
      (id : String) (events : List History)
      → client.history id ≡ ok events
      → IsFresh (λ (h : History). h.id) [] events
  pub history_of :
      (id : String) (events : List History)
      → client.history id ≡ ok events
      → All (λ (h : History). h.download_id ≡ id) events
  pub blocklist_fresh :
      (entries : List Blocklist)
      → client.blocklist ≡ ok entries
      → IsFresh (λ (b : Blocklist). b.id) [] entries
  pub command_of : (id : ℤ) (c : Command) → client.command id ≡ ok c → (c.id ≡ id) × (pos 0 <ℤ id)
  pub episode_of : (id : ℤ) (e : Episode) → client.episode id ≡ ok e → (e.id ≡ id) × (pos 0 <ℤ id)
  pub episode_file_of :
      (id : ℤ) (f : EpisodeFile) → client.episode_file id ≡ ok f → (f.id ≡ id) × (pos 0 <ℤ id)
  pub series_of : (id : ℤ) (s : Series) → client.series id ≡ ok s → (s.id ≡ id) × (pos 0 <ℤ id)
  pub profile_of : (id : ℤ) (p : Profile) → client.profile id ≡ ok p → (p.id ≡ id) × (pos 0 <ℤ id)

checked_resource-id {ℓ} :
    {T : Type ℓ} (get_id : T → ℤ) (id : ℤ) (answer : Result T) (v : T)
    → checked_resource get_id id answer ≡ ok v
    → (get_id v ≡ id) × (pos 0 <ℤ id)
unfolding checked_resource
checked_resource-id get_id id (err e) v h = absurd (ground arith)
checked_resource-id get_id id (ok w) v h = elim (Bool-cases (leb_ℤ id (pos 0) || get_id w != id)) [
  | inl y ↦ absurd (ground arith)
  | inr n ↦
      let same : w ≡ v = ok-injective (sym (rw (n, checked_resource) refl) ∙ h) in
      (ap get_id (sym same) ∙ (int_beq_iff (get_id w) id).0 (ground arith), ground arith)
]

check_queue-IsTracked :
    (rows : List QueueRow) (u : Unit {0}) → check_queue rows ≡ ok u → All IsTracked rows
unfolding check_queue
check_queue-IsTracked [] u h = tt
check_queue-IsTracked (row ∷ rest) u h =
    elim (Bool-cases
      (ltb_ℤ (int_at row.series_id) (pos 0) || ltb_ℤ (int_at row.episode_id) (pos 0))) [
        | inl y ↦ absurd (ground arith)
        | inr a ↦ elim (Bool-cases (is_blank row.download_id && not (is_delayed row))) [
          | inl y ↦ absurd (ground arith)
          | inr b ↦ (
            (ground arith, ground arith, λ blank. ground arith),
            check_queue-IsTracked rest u (ground arith),
          )
        ]
      ]

-- What a queue that was read has passed.
abbrev IsRead : List QueueRow → Type 0
IsRead rows = IsFresh row_id [] rows × All IsTracked rows

queue_tries-IsRead :
    (left : ℕ) (fetch : ℕ → ℕ → Result (Page QueueRow)) (cancelled : ℕ → Bool) (i : ℕ)
    (last : String) (rows : List QueueRow)
    → queue_tries fetch cancelled left i last ≡ ok rows
    → IsRead rows
unfolding queue_tries
queue_tries-IsRead zero fetch cancelled i last rows h = absurd (ground arith)
queue_tries-IsRead (suc left) fetch cancelled i last rows h =
    elim (Result-cases (pages row_id (fetch i) 1000)) [
      | inl (got, e) ↦
          let h' : (check_queue got >>= λ _. ok got) ≡ ok rows =
            sym (rw (e, queue_tries) refl) ∙ h in
          let (u, c, same) = >>=-eq-ok (check_queue got) (λ _. ok got) h' in
          let (m, le, f, fresh) = pages-IsComplete row_id (fetch i) 1000 got e in
          rw (sym (ok-injective same)) (fresh, check_queue-IsTracked got u c)
      | inr (why, e) ↦ elim (Bool-cases (cancelled i)) [
        | inl y ↦ absurd (ground arith)
        | inr n ↦
            queue_tries-IsRead left fetch cancelled (suc i) why rows
              (sym (rw (e, n, queue_tries) refl) ∙ h)
      ]
    ]

check_history-of :
    (id : String) (events got : List History)
    → check_history id got ≡ ok events
    → (got ≡ events) × All (λ (h : History). h.download_id ≡ id) events
unfolding check_history
check_history-of id events got h =
    elim (Bool-cases (any (λ (e : History). e.download_id != id) got)) [
      | inl y ↦ absurd (ground arith)
      | inr n ↦
          let same : got ≡ events = ok-injective (sym (rw (n, check_history) refl) ∙ h) in
          (same, rw (sym same) (each got n))
    ]
  where
    each :
        (rest : List History)
        → any (λ (e : History). e.download_id != id) rest ≡ false
        → All (λ (h : History). h.download_id ≡ id) rest
    each [] n = tt
    each (e ∷ rest) n =
        ((string_beq_iff e.download_id id).0 (ground arith), each rest (ground arith))

-- The client that is built on HTTP exchanges keeps these promises, whatever Sonarr answers.
pub client_of-IsLawful :
    (api_error : ℤ → String → String) (x : Exchanges) → IsLawful (client_of api_error x)
unfolding client_of queue
client_of-IsLawful api_error x = record {
  queue_fresh = λ rows h. (queue_tries-IsRead 3 _ _ 0 "" rows h).0;
  queue_tracked = λ rows h. (queue_tries-IsRead 3 _ _ 0 "" rows h).1;
  history_fresh = λ id events h.
      let (got, e, c) = >>=-eq-ok (pages (λ (h : History). h.id) _ 100) (check_history id) h in
      rw (sym (check_history-of id events got c).0) (pages-IsComplete _ _ 100 got e).3;
  history_of = λ id events h.
      let (got, e, c) = >>=-eq-ok (pages (λ (h : History). h.id) _ 100) (check_history id) h in
      (check_history-of id events got c).1;
  blocklist_fresh = λ entries h. (pages-IsComplete _ _ 100 entries h).3;
  command_of = λ id c h. checked_resource-id _ id _ c h;
  episode_of = λ id e h. checked_resource-id _ id _ e h;
  episode_file_of = λ id f h. checked_resource-id _ id _ f h;
  series_of = λ id s h. checked_resource-id _ id _ s h;
  profile_of = λ id p h. checked_resource-id _ id _ p h;
}
