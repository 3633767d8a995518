-- ===== src/Http/Stream.antt =====
-- internal/httpapi/server.go: `events`, the stream of the events that Redis publishes.
use flooks.Common.{String, Bool, none, List, [], ◌∷◌, if◌then◌else◌}
use flooks.Common.Text.{◌+++◌}
use flooks.Http.Wire.{Response, stream, problem}

-- What the `select` meets, in its order: the end of the request's context, a message of the
-- subscription, or its end.
pub data Signal : Type 0 where
  done closed : Signal
  message : String → Signal

abbrev pub frame : String → String
frame payload = "event: asset\ndata: " +++ payload +++ "\n\n"

-- The loop, by what it writes, one text for each flush.
unfoldable pub stream_loop : List Signal → List String
stream_loop [] = []
stream_loop (done ∷ rest) = []
stream_loop (closed ∷ rest) = []
stream_loop (message payload ∷ rest) = frame payload ∷ stream_loop rest

-- `events`. The writer can flush or it cannot.
unfoldable pub events : Bool → List Signal → Response
unfolding stream_loop
events can_flush signals =
    if can_flush
    then record {
      status = 200;
      etag = none;
      body = stream (": connected\n\n" ∷ stream_loop signals);
    }
    else problem 500 "streaming unavailable" ""
