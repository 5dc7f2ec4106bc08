-- ===== src/Providers/Caution.antt =====
-- Which failures app/providers.py lets the gateway route elsewhere.
use kunlun_model_gateway.Base.{refl, List, arith, Bool-cases, inl, inr, leb}
use kunlun_model_gateway.Json.{Json}
use kunlun_model_gateway.Providers.{
  Interrupt, Exchange, new_error, lost, open_interrupted, open_stream, response,
}
use kunlun_model_gateway.Providers.Explained.{
  IsExplained, OpeningIsExplained, is_unsent_or_pooled, status_error-IsExplained,
}

unopened-IsExplained : (i : Interrupt) → OpeningIsExplained (lost i) (open_interrupted i)
unfolding open_interrupted new_error
unopened-IsExplained Interrupt.connect_error =
    IsExplained.unsent_request Interrupt.connect_error refl refl (refl, refl)
unopened-IsExplained Interrupt.connect_timeout =
    IsExplained.unsent_request Interrupt.connect_timeout refl refl (refl, refl)
unopened-IsExplained Interrupt.pool_timeout =
    IsExplained.unsent_request Interrupt.pool_timeout refl refl (refl, refl)
unopened-IsExplained Interrupt.read_timeout =
    IsExplained.uncertain_request Interrupt.read_timeout refl refl (refl, refl)
unopened-IsExplained Interrupt.write_timeout =
    IsExplained.uncertain_request Interrupt.write_timeout refl refl (refl, refl)
unopened-IsExplained Interrupt.cancelled = tt
unopened-IsExplained Interrupt.other = tt

-- The same of opening a stream.
pub open_stream-IsExplained : (x : Exchange) → OpeningIsExplained x (open_stream x)
unfolding open_stream
open_stream-IsExplained (lost i) = unopened-IsExplained i
open_stream-IsExplained (response status chunks i) = elim (Bool-cases (leb 400 status)) [
  | inl high ↦ rw high (status_error-IsExplained is_unsent_or_pooled status chunks i (ground arith))
  | inr fine ↦ rw fine tt
]
