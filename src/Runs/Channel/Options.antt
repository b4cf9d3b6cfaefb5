-- ===== src/Runs/Channel/Options.antt =====
-- The bounds that the constructor of `RunEventChannel` settles on.
use alfred_ai.Base.{ℕ, ◌≤◌, ◌<◌, Option, arith}
use alfred_ai.Runs.Channel.{max_buffered_events, low_watermark}

pub bounds_lem :
    (configured watermark : Option ℕ)
    → (20 ≤ max_buffered_events configured)
      × (1 ≤ low_watermark (max_buffered_events configured) watermark)
      × (low_watermark (max_buffered_events configured) watermark < max_buffered_events configured)
unfolding max_buffered_events low_watermark
bounds_lem configured watermark = ground arith
