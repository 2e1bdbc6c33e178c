-- ===== src/Producer/Durability.antt =====
-- buffer/producer.go: `AwaitDurable`, and what it reports of a batch that went through the committer
-- and the resolver.
mod Tests
use opendata_go.Base.{
  ◌<◌, ◌^◌, if_else, if_then, subst, refl, ap, ◌∙◌, sym, Bool, true, false, Option, none, some,
  List, [], ◌∷◌, ◌++◌, ◌≡◌, ◌⊎◌, inl, inr, Error, context_done, if◌then◌else◌, ℕ, Bool-cases,
}
use mathlib.Core.List.{Mem}
use mathlib.Core.Option.{some-injective}
use opendata_go.Enqueuer.{EnqueueItem}
use opendata_go.Committer.{ResolverItem, UploadCompletion, Drained, item_of}
use opendata_go.Committer.Run.{Arrivals, manifest_committer}
use opendata_go.Bytes.{Bytes}
use opendata_go.Manifest.{QueueEntry}
use opendata_go.Store.{ObjectStore, CasLaws}
use opendata_go.Enqueuer.{ConflictCounter}
use opendata_go.Enqueuer.Log.{IsItem}
use opendata_go.Enqueuer.Keeps.{FailSafe, OthersAdd, Holds}
use opendata_go.Producer.Appends.{retried}
use opendata_go.Producer.Appends.Enqueued.{
  enqueue_attempt, items_of_entries, ManifestOf, cas_with_retry-Logs,
}
use opendata_go.Committer.Run.Reported.{IsDurable, AllDurable, Extends}
use opendata_go.Committer.Run.Durable.{ArrivalsFit, manifest_committer-Kept}
use opendata_go.Producer.Watchers.{
  DurabilityWatcher, Watchers, Settled, resolve_each, resolve_item, resolve_items,
  resolve_items_lem, resolve_each-other, watches,
}

-- Which case of the `select` is taken.
pub data Woken : Type 0 where
  on_channel : Woken
  on_context : Woken

-- None while it blocks: the channel is closed once the watcher is done.
unfoldable pub await_durable : Woken → DurabilityWatcher → Option (Option Error)
await_durable on_channel w = if w.done then some w.result else none
await_durable on_context w = some (some context_done)

await_durable-none :
    (woken : Woken) (w : DurabilityWatcher)
    → await_durable woken w ≡ some none
    → (w.done ≡ true) × (w.result ≡ none)
unfolding await_durable
await_durable-none on_channel w h = elim (Bool-cases w.done) [
  | inl done ↦ (done, some-injective _ _ (sym (if_then w.done done _ _) ∙ h))
  | inr waiting ↦ absurd (cc (if_else w.done waiting _ _, h))
]
await_durable-none on_context w h = absurd (cc h)

-- A batch that carries the watcher, and its place among those that were resolved.
pub record ResolvedBy (q : ℕ) (ris : List ResolverItem) (r : ResolverItem) : Type 0 where
  pub before : List ResolverItem
  pub after : List ResolverItem
  pub is_there : ris ≡ before ++ (r ∷ after)
  pub carries : watches q r.completion.eb.watchers ≡ true

resolved_by :
    (ris : List ResolverItem) (s : Settled) (q : ℕ)
    → (s.watchers q).done ≡ false
    → ((resolve_items ris s).watchers q).done ≡ true
    → ((resolve_items ris s).watchers q).result ≡ none
    → (r : ResolverItem) × ResolvedBy q ris r × (r.error ≡ none)
unfolding resolve_items resolve_item
resolved_by [] s q waiting done ok = absurd (cc (waiting, done))
resolved_by (x ∷ ris) s q waiting done ok = elim (Bool-cases (watches q x.completion.eb.watchers)) [
  | inl own ↦
      let now = resolve_items_lem [] ris x s q tt own waiting in
      (
        x,
        record { before = []; after = ris; is_there = refl; carries = own },
        sym (ap (λ (w : DurabilityWatcher). w.result) now) ∙ ok,
      )
  | inr other ↦
      let kept = resolve_each-other x.error x.completion.eb.watchers s.watchers q other in
      let (r, b, no_error) =
        resolved_by ris (resolve_item x s) q (ap (λ (w : DurabilityWatcher). w.done) kept ∙ waiting)
          done ok in
      (
        r,
        record {
          before = x ∷ b.before;
          after = b.after;
          is_there = ap (λ l. x ∷ l) b.is_there;
          carries = b.carries;
        },
        no_error,
      )
]

AllDurable-there :
    (l : List EnqueueItem) (before after : List ResolverItem) (r : ResolverItem)
    → AllDurable l (before ++ (r ∷ after))
    → IsDurable l r
AllDurable-there l [] after r a = a.0
AllDurable-there l (x ∷ before) after r a = AllDurable-there l before after r a.1

module _ {S : Type 0} {o : ObjectStore S} (laws : CasLaws o) (path : Bytes) (between : ℕ → S → S)
    (adds : OthersAdd laws path between) (safe : FailSafe laws) (fuel : ℕ) (shutdown_at : ℕ → Bool)
    (max_attempts batch_size : ℕ) (small : batch_size < 2 ^ 63) where
  -- The committer's run with the program's own writes: `casWithRetry` over `enqueueBatch`.
  abbrev pub committer_run :
      List Arrivals → Bool → S × ConflictCounter → Option (Drained (S × ConflictCounter))
  committer_run =
      manifest_committer (retried (enqueue_attempt o path between fuel) shutdown_at max_attempts)
        batch_size

  pub manifest_committer-AllDurable :
      (arrivals : List Arrivals) (in_gather : Bool) (z : S × ConflictCounter) (es : List QueueEntry)
      → Holds laws path z.0 es
      → ArrivalsFit IsItem arrivals
      → (d : Drained (S × ConflictCounter)) × (committer_run arrivals in_gather z ≡ some d)
        × (es' : List QueueEntry) × Holds laws path d.state.0 es'
        × Extends (items_of_entries es) (items_of_entries es')
        × AllDurable (items_of_entries es') d.resolved
  manifest_committer-AllDurable arrivals in_gather z es held fit =
      let (d, ran, l', (es', held', is_l'), more, durable) =
        manifest_committer-Kept
          (retried (enqueue_attempt o path between fuel) shutdown_at max_attempts) batch_size
          (ManifestOf laws path between) IsItem
          (cas_with_retry-Logs laws path between adds safe fuel shutdown_at max_attempts batch_size
            small)
          arrivals in_gather z (items_of_entries es) (es, held, refl) fit in
      (
        d,
        ran,
        es',
        held',
        subst (Extends (items_of_entries es)) is_l' more,
        subst (λ l. AllDurable l d.resolved) is_l' durable,
      )

  -- If `AwaitDurable` reports success after a whole run of the committer and the resolver, to a caller
  -- whose watcher was waiting before, then a batch that carries the watcher was resolved in the run,
  -- was uploaded, and has its entry in the manifest object at the end, whatever writes failed. The
  -- run's writes are `casWithRetry` over `enqueueBatch`, on a store whose failures are those of a
  -- network, with a manifest that others only add to, and for batches that the format can hold.
  pub await_durable-IsDurable :
      (arrivals : List Arrivals) (in_gather : Bool) (z : S × ConflictCounter) (es : List QueueEntry)
      (d : Drained (S × ConflictCounter)) (settled : Settled) (q : ℕ) (woken : Woken)
      → Holds laws path z.0 es
      → ArrivalsFit IsItem arrivals
      → committer_run arrivals in_gather z ≡ some d
      → (settled.watchers q).done ≡ false
      → await_durable woken ((resolve_items d.resolved settled).watchers q) ≡ some none
      → (r : ResolverItem) × ResolvedBy q d.resolved r
        × (r.completion.put_error ≡ none)
        × (es' : List QueueEntry) × Holds laws path d.state.0 es'
        × Mem (item_of r.completion) (items_of_entries es')
  await_durable-IsDurable arrivals in_gather z es d settled q woken held fit ran waiting success =
      let (d', ran', es', held', more, durable) =
        manifest_committer-AllDurable arrivals in_gather z es held fit in
      let same : d' ≡ d = some-injective _ _ (sym ran' ∙ ran) in
      let all =
        subst (λ (x : Drained _). AllDurable (items_of_entries es') x.resolved) same durable in
      let (done, ok) = await_durable-none woken _ success in
      let (r, by, no_error) = resolved_by d.resolved settled q waiting done ok in
      let (up, there) =
        AllDurable-there (items_of_entries es') by.before by.after r
          (subst (AllDurable (items_of_entries es')) by.is_there all) no_error in
      (
        r,
        by,
        up,
        es',
        subst (λ (x : Drained (S × ConflictCounter)). Holds laws path x.state.0 es') same held',
        there,
      )
