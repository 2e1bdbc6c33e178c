-- ===== src/Producer/Closing/Tests.antt =====
-- A close whose uploaders hang.
use opendata_go.Base.{Bool, true, false, Option, none, [], ◌∷◌, ◌≡◌, ◌≢◌, ◌⊎◌, Error, ok}
use opendata_go.Producer.Closing.{
  close_producer, PipelineGoroutine, rotator, encoder_pool, uploader_pool, committer, resolver,
  Closing, new_closing, close_all, AllExit, close_all_lem,
}

abbrev hanging : PipelineGoroutine → Bool
hanging rotator = true
hanging encoder_pool = true
hanging uploader_pool = false
hanging committer = false
hanging resolver = false

abbrev flush_error : Option Error
flush_error = none

close_all_example :
    (c : Closing) × (error : Option Error) × (close_producer flush_error hanging new_closing
      ≡ ok (c, error))
    × (close_all ((none, hanging) ∷ (none, hanging) ∷ []) new_closing ≡ ok (c, error ∷ none ∷ []))
    × (c.append_ch_closed ≡ true)
    × ((error ≢ none)
        ⊎ (flush_error ≡ none)
          × AllExit (rotator ∷ encoder_pool ∷ uploader_pool ∷ committer ∷ resolver ∷ []) hanging)
close_all_example = close_all_lem flush_error hanging ((none, hanging) ∷ [])
