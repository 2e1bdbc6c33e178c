-- ===== src/Producer/Watchers.antt =====
-- buffer/producer.go: `DurabilityWatcher`, and `watcherResolver`, which settles a batch.
use opendata_go.Base.{
  ◌||◌, refl, inr, ◌∙◌, ap, inl, Bool-cases, [], ◌==◌, ◌++◌, true, ◌∷◌, if◌then◌else◌, some, ◌≡◌,
  Error, false, List, Option, none, Bool, ℕ,
}
use opendata_go.Budget.{Budget, release}
use opendata_go.Committer.{ResolverItem}

-- `done` also says that `ch` is closed.
pub record DurabilityWatcher : Type 0 where
  pub result : Option Error
  pub done : Bool

abbrev pub new_watcher : DurabilityWatcher
new_watcher = record { result = none; done = false }

-- `Result`: whether the batch was flushed, and its outcome.
abbrev pub result_of : DurabilityWatcher → Bool × Option Error
result_of w = if w.done then (true, w.result) else (false, none)

unfoldable pub resolve : Option Error → DurabilityWatcher → DurabilityWatcher
resolve e w = if w.done then w else record { result = e; done = true }

-- The watchers by number.
abbrev pub Watchers : Type 0
Watchers = ℕ → DurabilityWatcher

-- The loop over a batch's watchers.
unfoldable pub resolve_each : Option Error → List ℕ → Watchers → Watchers
unfolding resolve
resolve_each e [] ws = ws
resolve_each e (n ∷ ns) ws = resolve_each e ns (λ q. if q == n then resolve e (ws q) else ws q)

pub record Settled : Type 0 where
  pub watchers : Watchers
  pub flush_acks : List (ℕ × Option Error)
  pub budget : Budget

abbrev pub acknowledged :
    Option ℕ → Option Error → List (ℕ × Option Error) → List (ℕ × Option Error)
acknowledged none e acks = acks
acknowledged (some ack) e acks = acks ++ ((ack, e) ∷ [])

-- The body of `watcherResolver`'s loop.
unfoldable pub resolve_item : ResolverItem → Settled → Settled
unfolding resolve_each release
resolve_item ri s = record {
  watchers = resolve_each ri.error ri.completion.eb.watchers s.watchers;
  flush_acks = acknowledged ri.completion.eb.flush_ack ri.error s.flush_acks;
  budget = release ri.completion.eb.byte_cost 1 s.budget;
}

unfoldable pub resolve_items : List ResolverItem → Settled → Settled
unfolding resolve_item
resolve_items [] s = s
resolve_items (ri ∷ ris) s = resolve_items ris (resolve_item ri s)

resolve_each-done :
    (e : Option Error) (ns : List ℕ) (ws : Watchers) (q : ℕ)
    → (ws q).done ≡ true
    → resolve_each e ns ws q ≡ ws q
unfolding resolve_each resolve
resolve_each-done e [] ws q d = refl
resolve_each-done e (n ∷ ns) ws q d = elim (Bool-cases (q == n)) [
  | inl h ↦
      let same : (if q == n then resolve e (ws q) else ws q) ≡ ws q = rw (h, resolve, d) in
      resolve_each-done e ns _ q (ap (λ w. w.done) same ∙ d) ∙ same
  | inr h ↦
      let same : (if q == n then resolve e (ws q) else ws q) ≡ ws q = rw h in
      resolve_each-done e ns _ q (ap (λ w. w.done) same ∙ d) ∙ same
]

-- A watcher that is resolved keeps its result, whatever batches are settled later.
pub resolve_items-done :
    (ris : List ResolverItem) (s : Settled) (q : ℕ)
    → (s.watchers q).done ≡ true
    → (resolve_items ris s).watchers q ≡ s.watchers q
unfolding resolve_items resolve_item
resolve_items-done [] s q d = refl
resolve_items-done (ri ∷ ris) s q d =
    let same = resolve_each-done ri.error ri.completion.eb.watchers s.watchers q d in
    resolve_items-done ris (resolve_item ri s) q (ap (λ w. w.done) same ∙ d) ∙ same

-- Is the watcher one of these?
unfoldable pub watches : ℕ → List ℕ → Bool
watches q [] = false
watches q (n ∷ ns) = (q == n) || watches q ns

pub resolve_each-other :
    (e : Option Error) (ns : List ℕ) (ws : Watchers) (q : ℕ)
    → watches q ns ≡ false
    → resolve_each e ns ws q ≡ ws q
unfolding resolve_each watches
resolve_each-other e [] ws q h = refl
resolve_each-other e (n ∷ ns) ws q h = elim (Bool-cases (q == n)) [
  | inl same ↦ let bad : true ≡ false = rw same at h in absurd (cc bad)
  | inr other ↦
      let rest : watches q ns ≡ false = rw other at h in
      let kept : (if q == n then resolve e (ws q) else ws q) ≡ ws q = rw other in
      resolve_each-other e ns _ q rest ∙ kept
]

resolve_fresh :
    (e : Option Error) (w : DurabilityWatcher)
    → w.done ≡ false
    → resolve e w ≡ record { result = e; done = true }
unfolding resolve
resolve_fresh e w d = rw d

resolve_each-own :
    (e : Option Error) (ns : List ℕ) (ws : Watchers) (q : ℕ)
    → watches q ns ≡ true
    → (ws q).done ≡ false
    → resolve_each e ns ws q ≡ record { result = e; done = true }
unfolding resolve_each watches
resolve_each-own e [] ws q h d = absurd (cc h)
resolve_each-own e (n ∷ ns) ws q h d = elim (Bool-cases (q == n)) [
  | inl same ↦
      let now : (if q == n then resolve e (ws q) else ws q) ≡ record { result = e; done = true } =
        rw same (resolve_fresh e (ws q) d) in
      resolve_each-done e ns _ q (ap (λ w. w.done) now) ∙ now
  | inr other ↦
      let rest : watches q ns ≡ true = rw other at h in
      let kept : (if q == n then resolve e (ws q) else ws q) ≡ ws q = rw other in
      resolve_each-own e ns _ q rest (ap (λ w. w.done) kept ∙ d)
]

-- None of these batches has the watcher.
abbrev pub Unwatched : ℕ → List ResolverItem → Type 0
Unwatched q [] = Unit {0}
Unwatched q (ri ∷ ris) = (watches q ri.completion.eb.watchers ≡ false) × Unwatched q ris

-- A waiting watcher gets the result of the first batch that carries it, and keeps it whatever
-- batches are settled before and after.
pub resolve_items_lem :
    (before after : List ResolverItem) (ri : ResolverItem) (s : Settled) (q : ℕ)
    → Unwatched q before
    → watches q ri.completion.eb.watchers ≡ true
    → (s.watchers q).done ≡ false
    → (resolve_items (before ++ (ri ∷ after)) s).watchers q
      ≡ record { result = ri.error; done = true }
unfolding resolve_items resolve_item
resolve_items_lem [] after ri s q none_before own d =
    let now = resolve_each-own ri.error ri.completion.eb.watchers s.watchers q own d in
    resolve_items-done after (resolve_item ri s) q (ap (λ w. w.done) now) ∙ now
resolve_items_lem (x ∷ before) after ri s q (other, others) own d =
    let kept = resolve_each-other x.error x.completion.eb.watchers s.watchers q other in
    resolve_items_lem before after ri (resolve_item x s) q others own (ap (λ w. w.done) kept ∙ d)
