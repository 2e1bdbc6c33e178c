-- ===== src/Committer/Tests.antt =====
-- Batches that arrive out of order.
use opendata_go.Base.{storage, false, refl, arith, Error, some, ◌∷◌, Option, [], ℕ, none, ◌≡◌}
use mathlib.Core.List.{[], List, Perm}
use opendata_go.Enqueuer.{EnqueueItem}
use opendata_go.Committer.{
  item_of, remove, ready_at, UploadCompletion, Committer, Drained, drain, items_of,
}
use opendata_go.Committer.Accounts.{accounted, drain_accounts}
use opendata_go.Committer.Order.{contiguous, uploaded}

abbrev batch_of : ℕ → Option Error → UploadCompletion
batch_of n e = record {
  eb = record {
    ordinal = n;
    payload = [];
    metadata = [];
    watchers = n ∷ [];
    flush_ack = none;
    location = n ∷ [];
    byte_cost = 10;
  };
  put_error = e;
  encode_failed = false;
}

-- Batch 1 was not uploaded, and batch 4 comes too early.
abbrev arrived : Committer
arrived = record {
  next = 0;
  ready = batch_of 2 none ∷ batch_of 4 none ∷ batch_of 0 none ∷ batch_of 1 (some storage) ∷ [];
  halted = false;
}

-- A manifest that takes no write.
abbrev refusing : List EnqueueItem → List EnqueueItem → List EnqueueItem × Option Error
refusing items log = (log, some storage)

drain_accounts_example :
    (d : Drained (List EnqueueItem)) × (drain refusing 2 5 arrived [] ≡ some d)
    × Perm (accounted d) arrived.ready
drain_accounts_example = drain_accounts refusing 2 5 arrived [] (omega arith)

in_order :
    items_of (uploaded (contiguous 5 0 arrived.ready))
    ≡ item_of (batch_of 0 none) ∷ item_of (batch_of 2 none) ∷ []
unfolding items_of uploaded contiguous ready_at remove
in_order = refl
