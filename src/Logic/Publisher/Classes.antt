-- ===== src/Logic/Publisher/Classes.antt =====
-- What the answers of Publish say of the broker.
use fable.Prelude.{◌≡◌, ◌⊎◌, Str, true, false, arith, str_eq, nat_eq}
use fable.Logic.Dispatch.{acknowledged, not_published, uncertain}
use fable.Logic.Publisher.{
  Kafka, Circumstances, written, closed_pipe, other_failure, is_publishable, publish,
}

-- "Not published" is answered only where the task was not handed over, or where the writer was closed
-- and enqueued nothing; "acknowledged" only where the writer said so of a sound task under a live
-- context; and every other answer of the writer is "uncertain".
pub publish_cases :
    (k : Kafka) (c : Circumstances) (key raw : Str)
    → let (handed, outcome) = publish k c key raw in
      ((outcome ≡ not_published) × ((handed ≡ false) ⊎ (k.write key raw ≡ closed_pipe)))
      ⊎ ((outcome ≡ acknowledged)
          × (handed ≡ true)
          × (k.write key raw ≡ written)
          × (is_publishable k c key raw ≡ true)
          × (c.canceled ≡ false))
      ⊎ ((outcome ≡ uncertain) × (handed ≡ true) × (k.write key raw ≡ other_failure))
unfolding publish
publish_cases k c key raw = ground arith
