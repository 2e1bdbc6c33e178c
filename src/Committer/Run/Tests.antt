-- ===== src/Committer/Run/Tests.antt =====
-- A run in which batch 1 arrives before batch 0, and both before batch 2, whose upload failed.
use opendata_go.Base.{
  Error, Option, none, some, true, false, List, [], ◌++◌, ◌≡◌, ℕ, ◌∷◌, storage, refl,
}
use mathlib.Core.List.{Perm}
use mathlib.Core.List.Perm
use opendata_go.Enqueuer.{EnqueueItem}
use opendata_go.Committer.{UploadCompletion, Drained}
use opendata_go.Committer.Accounts.{accounted}
use opendata_go.Committer.Numbered.{NumberedFrom}
use opendata_go.Committer.Distinct.{Distinct-Perm, NumberedFrom-Distinct}
use opendata_go.Committer.Run.{Arrivals, received, manifest_committer}
use opendata_go.Committer.Run.Accounts.{manifest_committer_accounts}

abbrev batch_of : ℕ → Option Error → UploadCompletion
batch_of n e = record {
  eb = record {
    ordinal = n;
    payload = [];
    metadata = [];
    watchers = n ∷ [];
    flush_ack = none;
    location = n ∷ [];
    byte_cost = 10;
  };
  put_error = e;
  encode_failed = false;
}

abbrev out_of_order : List Arrivals
out_of_order =
    record { first = batch_of 1 none; more = batch_of 0 none ∷ [] }
    ∷ record { first = batch_of 2 (some storage); more = [] }
    ∷ []

abbrev in_order : List UploadCompletion
in_order = batch_of 0 none ∷ batch_of 1 none ∷ batch_of 2 (some storage) ∷ []

out_of_order-Perm : Perm (received out_of_order) in_order
unfolding received
out_of_order-Perm = Perm.swap (batch_of 0 none) (batch_of 1 none) _

in_order-NumberedFrom : NumberedFrom 0 in_order
in_order-NumberedFrom = (refl, (refl, (refl, tt)))

abbrev taking : List EnqueueItem → List EnqueueItem → List EnqueueItem × Option Error
taking items log = (log ++ items, none)

manifest_committer_accounts_example :
    (d : Drained (List EnqueueItem)) × (manifest_committer taking 2 out_of_order true [] ≡ some d)
    × Perm (accounted d) (received out_of_order)
manifest_committer_accounts_example =
    manifest_committer_accounts taking 2 out_of_order true []
      (Distinct-Perm out_of_order-Perm (NumberedFrom-Distinct 0 in_order in_order-NumberedFrom))
