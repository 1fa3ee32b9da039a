-- ===== src/Delivery/Channel/Once.antt =====
-- A channel over any history of records and dropped ranges.
use warp_insight.Prelude.{ℕ, ◌<◌, ◌≡◌, refl, ap, ◌∙◌, List, [], ◌∷◌, String, arith}
use warp_insight.Prelude.Words.{u64_max}
use warp_insight.Delivery.Watermark.{Tracker, duplicate, observe}
use warp_insight.Delivery.Watermark.Settle.{Inv}
use warp_insight.Delivery.Watermark.History.{
  Call, observes, commits, AllInRange, step, run, observe_once,
}
use warp_insight.Delivery.Channel.{QualityChannel, rejected, on_record, on_dropped_range}

pub data Event : Type 0 where
  arrival : ℕ → Event
  filtered : ℕ → ℕ → String → Event

abbrev pub call_of : Event → Call
call_of (arrival seq) = observes seq
call_of (filtered start stop reason) = commits start stop

abbrev pub calls_of : List Event → List Call
calls_of [] = []
calls_of (e ∷ es) = call_of e ∷ calls_of es

unfoldable pub handle : Event → QualityChannel → QualityChannel
unfolding on_record on_dropped_range
handle (arrival seq) c = (on_record seq c).0
handle (filtered start stop reason) c = on_dropped_range start stop reason c

unfoldable pub handle_all : List Event → QualityChannel → QualityChannel
unfolding handle
handle_all [] c = c
handle_all (e ∷ es) c = handle_all es (handle e c)

on_record-watermark :
    (seq : ℕ) (c : QualityChannel) → (on_record seq c).0.watermark ≡ (observe seq c.watermark).0
unfolding on_record
on_record-watermark seq c = ground arith

handle-watermark :
    (e : Event) (c : QualityChannel) → (handle e c).watermark ≡ step (call_of e) c.watermark
unfolding handle step
handle-watermark (arrival seq) c = on_record-watermark seq c
handle-watermark (filtered start stop reason) c = refl

-- The channel drives its tracker by the calls of its events, and by nothing else.
handle_all-watermark :
    (es : List Event) (c : QualityChannel)
    → (handle_all es c).watermark ≡ run (calls_of es) c.watermark
unfolding handle_all run
handle_all-watermark [] c = refl
handle_all-watermark (e ∷ es) c =
    handle_all-watermark es (handle e c) ∙ ap (run (calls_of es)) (handle-watermark e c)

on_record_duplicate :
    (seq : ℕ) (c : QualityChannel) (w : Tracker)
    → c.watermark ≡ w
    → observe seq w ≡ (w, record { outcome = duplicate; lost = [] })
    → on_record seq c ≡ (c, rejected)
unfolding on_record
on_record_duplicate seq c w p q = rw (observed, on_record, observed)
  where
    observed : observe seq c.watermark ≡ (c.watermark, record { outcome = duplicate; lost = [] })
    observed = rw p q

-- No record is accepted twice: once `on_record` has been given `seq`, it rejects it after any later
-- records and dropped ranges, and changes nothing.
pub on_record_once :
    (seq : ℕ) (es : List Event) (c : QualityChannel)
    → Inv c.watermark
    → seq < u64_max
    → AllInRange (calls_of es)
    → let later = handle_all es (on_record seq c).0 in on_record seq later ≡ (later, rejected)
on_record_once seq es c v h hs =
    on_record_duplicate seq _ (run (calls_of es) (observe seq c.watermark).0)
      (handle_all-watermark es (on_record seq c).0
        ∙ ap (run (calls_of es)) (on_record-watermark seq c))
      (observe_once c.watermark seq (calls_of es) v h hs)
