-- ===== src/Proxy/Body.antt =====
-- The streamed bodies of backend/src/proxy.rs: `into_proxy_body` and `into_proxy_body_idle`.
use unver.Prelude.{◌≡◌, refl, ap, List, [], ◌∷◌, ◌++◌, Text}

-- What comes from the upstream, in turn: bytes, a failure, or nothing for the length of the timeout.
pub data Arrival : Type 0 where
  chunk : Text → Arrival
  failure stall : Arrival

pub data Frame : Type 0 where
  data_frame : Text → Frame
  error_frame : Frame

-- Without a timeout a stall is waited out.
unfoldable pub into_proxy_body : List Arrival → List Frame
into_proxy_body [] = []
into_proxy_body (chunk b ∷ events) = data_frame b ∷ into_proxy_body events
into_proxy_body (failure ∷ events) = error_frame ∷ into_proxy_body events
into_proxy_body (stall ∷ events) = into_proxy_body events

unfoldable pub into_proxy_body_idle : List Arrival → List Frame
into_proxy_body_idle [] = []
into_proxy_body_idle (chunk b ∷ events) = data_frame b ∷ into_proxy_body_idle events
into_proxy_body_idle (failure ∷ events) = error_frame ∷ into_proxy_body_idle events
into_proxy_body_idle (stall ∷ events) = []

abbrev IsSteady : List Arrival → Type 0
IsSteady [] = Unit
IsSteady (chunk b ∷ events) = IsSteady events
IsSteady (failure ∷ events) = IsSteady events
IsSteady (stall ∷ events) = ⊥

-- A body that never stalls is passed on as it comes.
pub into_proxy_body_idle_steady :
    (events : List Arrival) → IsSteady events → into_proxy_body_idle events ≡ into_proxy_body events
unfolding into_proxy_body into_proxy_body_idle
into_proxy_body_idle_steady [] h = refl
into_proxy_body_idle_steady (chunk b ∷ events) h =
    ap (◌∷◌ (data_frame b)) (into_proxy_body_idle_steady events h)
into_proxy_body_idle_steady (failure ∷ events) h =
    ap (◌∷◌ error_frame) (into_proxy_body_idle_steady events h)
into_proxy_body_idle_steady (stall ∷ events) h = absurd h

-- A body that stalls ends as one that is complete where the other stalls: no frame tells that the rest
-- is missing.
pub into_proxy_body_idle_stalled :
    (before later : List Arrival)
    → into_proxy_body_idle (before ++ stall ∷ later) ≡ into_proxy_body_idle before
unfolding into_proxy_body_idle
into_proxy_body_idle_stalled [] later = refl
into_proxy_body_idle_stalled (chunk b ∷ before) later =
    ap (◌∷◌ (data_frame b)) (into_proxy_body_idle_stalled before later)
into_proxy_body_idle_stalled (failure ∷ before) later =
    ap (◌∷◌ error_frame) (into_proxy_body_idle_stalled before later)
into_proxy_body_idle_stalled (stall ∷ before) later = refl
