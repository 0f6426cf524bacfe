-- ===== src/Gate.antt =====
-- The middleware that a request passes before the routes, in the order in which app/main.py stacks
-- it: app/core/context.py, then app/core/s2s.py.
pub mod Tokens
pub mod SvcJwt
pub mod Ids
pub mod S2s
pub mod Passing
use lending_bank_gateway.Prelude.{ℕ, ltb, Bool, true, false, String, if◌then◌else◌}
use lending_bank_gateway.Gate.Ids.{
  Request, RequestIds, identify, max_request_target, request_target_bytes,
}
use lending_bank_gateway.Gate.S2s.{Guardian, Passage, dispatch}

-- answered with 414, or what `S2SMiddleware` says
pub data Answer : Type 0 where
  uri_too_long : Answer
  checked : Passage → Answer

-- the request's ids and what becomes of it, with the digits of the four UUIDs
unfoldable pub handle : Guardian → String → String → String → String → Request → RequestIds × Answer
unfolding identify request_target_bytes dispatch
handle g hex hex' hex'' hex''' r =
    let ids = identify hex hex' hex'' hex''' r in
    (
      ids,
      if ltb max_request_target (request_target_bytes r)
          then uri_too_long
          else checked (dispatch g ids r),
    )
