-- ===== src/Committer/Run.antt =====
-- buffer/producer.go: whole runs of `manifestCommitter`, from its start to the closing of the channel
-- of upload completions.
pub mod Draining
pub mod Arrival
pub mod Accounts
pub mod Reported
pub mod Durable
mod Tests
use opendata_go.Base.{
  none, some, false, length, suc, ◌||◌, if◌then◌else◌, Bool, ◌++◌, Error, [], ◌∷◌, Option, ℕ, List,
}
use opendata_go.Enqueuer.{EnqueueItem}
use opendata_go.Committer.{
  UploadCompletion, ResolverItem, Committer, Drained, receive, drain, after_resolving,
}

-- What one turn of the main loop receives: a completion, and those that `gather` finds behind it.
pub record Arrivals : Type 0 where
  pub first : UploadCompletion
  pub more : List UploadCompletion

unfoldable pub received : List Arrivals → List UploadCompletion
received [] = []
received (a ∷ as') = (a.first ∷ a.more) ++ received as'

abbrev pub new_committer : Committer
new_committer = record { next = 0; ready = []; halted = false }

module _ {S : Type 0} (cas : List EnqueueItem → S → S × Option Error) (batch_size : ℕ) where
  -- The turns of the main loop.
  unfoldable pub turns : List Arrivals → Committer → S → Option (Drained S)
  turns [] c s = some (record { committer = c; state = s; resolved = [] })
  turns (a ∷ as') c s = elim (receive cas batch_size a.first a.more c s) [
    | none ↦ none
    | some d ↦ after_resolving d.resolved (turns as' d.committer d.state)
  ]

  -- The end: a last `drain` where the closed channel was seen by the blocking receive, and none where
  -- `gather` saw it.
  unfoldable pub closing : Bool → Drained S → Option (Drained S)
  closing in_gather d =
      if in_gather || d.committer.halted
      then some d
      else after_resolving d.resolved
          (drain cas batch_size (suc (length d.committer.ready)) d.committer d.state)

  unfoldable pub manifest_committer : List Arrivals → Bool → S → Option (Drained S)
  unfolding turns closing
  manifest_committer arrivals in_gather s = elim (turns arrivals new_committer s) [
    | none ↦ none
    | some d ↦ closing in_gather d
  ]
