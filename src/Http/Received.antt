-- ===== src/Http/Received.antt =====
-- What a browser makes of the event stream: the format of the WHATWG for `EventSource`, line by line, as
-- far as the stream uses it.
use mathlib.Core.List.{append_assoc, append-nil}
use flooks.Common.{
  ℕ, String, ◌≡◌, ◌≢◌, refl, sym, ap, ◌∙◌, Bool, true, false, Option, none, some, List, [], ◌∷◌,
  ◌++◌, map, All, nat_eq, nat_eq_iff, arith, if◌then◌else◌,
}
use flooks.Common.Text.{codes, ◌+++◌}
use flooks.Common.Text.Digits.{codes-append}
use flooks.Http.Wire.{Body, stream}
use flooks.Http.Stream.{Signal, done, closed, message, frame, stream_loop, events}

-- The lines that are ended, by a carriage return (13), a line feed (10) or both. `returned` is whether a
-- carriage return was read just now, `line` is what has been read of the current line.
unfoldable pub lines : Bool → List ℕ → List ℕ → List (List ℕ)
lines returned line [] = []
lines returned line (c ∷ s) =
    let more = lines false (line ++ c ∷ []) s in
    let fed = lines false [] s in
    let at_return = lines true [] s in
    if nat_eq c 13
    then line ∷ at_return
    else if nat_eq c 10
    then (if returned then fed else line ∷ fed)
    else more

-- What follows a prefix.
unfoldable pub behind : List ℕ → List ℕ → Option (List ℕ)
behind [] s = some s
behind (p ∷ ps) [] = none
behind (p ∷ ps) (c ∷ s) = let rest = behind ps s in if nat_eq c p then rest else none

-- An event, with its type and its data.
pub record Event : Type 0 where
  pub type : List ℕ
  pub content : List ℕ

abbrev pub with_line : Option (List ℕ) → List ℕ → Option (List ℕ)
with_line none x = some x
with_line (some d) x = some (d ++ 10 ∷ x)

abbrev pub dispatched : List ℕ → Option (List ℕ) → List Event → List Event
dispatched type none rest = rest
dispatched type (some d) rest = record { type = type; content = d } ∷ rest

-- The events, by the lines: an empty line ends an event, which is none without data.
unfoldable pub interpret : List ℕ → Option (List ℕ) → List (List ℕ) → List Event
unfolding behind
interpret type content [] = []
interpret type content ([] ∷ rest) = dispatched type content (interpret [] none rest)
interpret type content ((c ∷ line) ∷ rest) = elim (behind (codes "event: ") (c ∷ line)) [
  | some x ↦ interpret x content rest
  | none ↦ elim (behind (codes "data: ") (c ∷ line)) [
    | some x ↦ interpret type (with_line content x) rest
    | none ↦ interpret type content rest
  ]
]

abbrev pub written : List String → List ℕ
written [] = []
written (text ∷ texts) = codes text ++ written texts

-- The events of a response.
unfoldable pub received : Body → List Event
unfolding lines interpret
received (stream texts) = interpret [] none (lines false [] (written texts))
received _ = []

-- The messages before the stream ends.
unfoldable pub messages : List Signal → List String
messages [] = []
messages (done ∷ rest) = []
messages (closed ∷ rest) = []
messages (message payload ∷ rest) = payload ∷ messages rest

abbrev pub asset_event : String → Event
asset_event payload = record { type = codes "asset"; content = codes payload }

abbrev pub IsOneLine : String → Type 0
IsOneLine payload = All (λ c. (c ≢ 10) × (c ≢ 13)) (codes payload)

lines-ended :
    (line xs rest : List ℕ)
    → All (λ c. (c ≢ 10) × (c ≢ 13)) xs
    → lines false line (xs ++ 10 ∷ rest) ≡ (line ++ xs) ∷ lines false [] rest
unfolding lines
lines-ended line [] rest h = ap (λ l. l ∷ lines false [] rest) (sym (append-nil line))
lines-ended line (x ∷ xs) rest ((p, q), h) =
    rw (nat_eq_false x 13 q, nat_eq_false x 10 p)
      (lines-ended (line ++ x ∷ []) xs rest h
        ∙ ap (λ l. l ∷ lines false [] rest) (append_assoc line (x ∷ []) xs))
  where
    nat_eq_false : (a b : ℕ) → a ≢ b → nat_eq a b ≡ false
    nat_eq_false a b n = ground (arith, nat_eq_iff a b)

codes-frame :
    (payload : String)
    → codes (frame payload)
      ≡ codes "event: asset" ++ 10 ∷ ((codes "data: " ++ codes payload) ++ 10 ∷ 10 ∷ [])
codes-frame payload =
    codes-append "event: asset\ndata: " (payload +++ "\n\n")
    ∙ ap (λ xs. codes "event: asset\ndata: " ++ xs) (codes-append payload "\n\n")

-- One event is read from what is written for a message.
interpret-frame :
    (payload : String) (rest : List ℕ)
    → IsOneLine payload
    → interpret [] none (lines false [] (codes (frame payload) ++ rest))
      ≡ asset_event payload ∷ interpret [] none (lines false [] rest)
unfolding interpret lines
interpret-frame payload rest h =
    ap (λ s. interpret [] none (lines false [] (s ++ rest))) (codes-frame payload)
    ∙ ap (λ s. interpret [] none (codes "event: asset" ∷ lines false (codes "data: ") s))
        (append_assoc (codes payload) (10 ∷ 10 ∷ []) rest)
    ∙ ap (λ ls. interpret [] none (codes "event: asset" ∷ ls))
        (lines-ended (codes "data: ") (codes payload) (10 ∷ rest) h)

-- A message without a line feed and a carriage return is received as it is: of a stream that can be flushed, the
-- browser reads an event of the type "asset" for each message before the stream's end, in order.
pub received-events :
    (signals : List Signal)
    → All IsOneLine (messages signals)
    → received (events true signals).body ≡ map asset_event (messages signals)
unfolding received events stream_loop messages
received-events signals h = read_all signals h
  where
    read_all :
        (signals : List Signal)
        → All IsOneLine (messages signals)
        → interpret [] none (lines false [] (written (stream_loop signals)))
          ≡ map asset_event (messages signals)
    read_all [] h = refl
    read_all (done ∷ rest) h = refl
    read_all (closed ∷ rest) h = refl
    read_all (message payload ∷ rest) (p, h) =
        interpret-frame payload (written (stream_loop rest)) p
        ∙ ap (λ es. asset_event payload ∷ es) (read_all rest h)
