-- ===== src/Gate/Passing.antt =====
-- What a request that reaches a route has passed.
use lending_bank_gateway.Prelude.{◌≤◌, ◌≡◌, Bool, String, Option, arith}
use lending_bank_gateway.Gate.{checked, handle}
use lending_bank_gateway.Gate.Ids.{Request, identify, request_target_bytes}
use lending_bank_gateway.Gate.S2s.{Guardian, passed, dispatch}
use lending_bank_gateway.Gate.S2s.Admission.{Admitted, dispatch-Admitted}

-- A request reaches a route only if its target has at most 8192 bytes and there is one of the reasons
-- of `Admitted` to let it through.
pub handle-Admitted :
    (g : Guardian) (hex hex' hex'' hex''' : String) (r : Request) (b : Option Bool)
    → (handle g hex hex' hex'' hex''' r).1 ≡ checked (passed b)
    → (request_target_bytes r ≤ 8192) × Admitted g (identify hex hex' hex'' hex''' r) r b
unfolding handle
handle-Admitted g hex hex' hex'' hex''' r b h =
    let fits : request_target_bytes r ≤ 8192 = ground arith in
    let same : dispatch g (identify hex hex' hex'' hex''' r) r ≡ passed b = ground arith in
    (fits, dispatch-Admitted g (identify hex hex' hex'' hex''' r) r same)
