-- ===== src/Infra/Exception/Tests.antt =====
-- The error record at concrete messages.
use dns_relay.Base.{◌≡◌, false, [], ◌∷◌, arith, ltb}
use dns_relay.Infra.Exception.{Context, ex_try, ex_catch, ex_throw, ex_end}
use dns_relay.Infra.Exception.Log.{Throws, ex_try-IsLog, ex_throw-Throws, ex_end-reports}

abbrev blank : Context
blank = record { msg = λ i. 0; err_flag = false; stack_top = 4095 }

ex_throw-Throws_example :
    Throws (ex_try blank) [] (111 ∷ 104 ∷ []) (ex_throw (ex_try blank) (111 ∷ 104 ∷ []))
ex_throw-Throws_example =
    ex_throw-Throws (ex_try blank) [] (111 ∷ 104 ∷ []) (ex_try-IsLog blank) (omega arith)
      (λ k h. ground arith)

ex_end-reports_example :
    (ex_catch (ex_try blank) ≡ ltb 0 0)
    × ((ex_end (ex_try blank)).1 ≡ [])
    × (ex_catch (ex_end (ex_try blank)).0 ≡ false)
    × ((ex_end (ex_end (ex_try blank)).0).1 ≡ [])
ex_end-reports_example = ex_end-reports (ex_try blank) [] (ex_try-IsLog blank)
