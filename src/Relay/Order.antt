-- ===== src/Relay/Order.antt =====
-- The order in which app/proxy/websocket.py hands the payloads of one attempt on.
use inference_proxy.Prelude.{
  String, Bool, true, false, Option, none, some, List, [], ◌∷◌, ◌++◌, map, ◌≡◌, refl, sym, ap, ◌∙◌,
  ◌≢◌, append_assoc, append-nil, Bool-cases, inl, inr, if◌then◌else◌,
}
use inference_proxy.Json.{Value}
use inference_proxy.Text.{contains}
use inference_proxy.Relay.Lines.{
  Message, text, Turn, Left, over, payload_of, flushes, hand_on, failed, is_error, overflowed,
  overflow_in, completed, stop, go_on, step_with, follow, read_payload, read_lines,
}

-- what the client was sent, and behind it what is buffered
abbrev pub shown : Turn → List Message
shown t = t.sent ++ map text t.buffer

-- nothing is buffered once the buffer was sent
abbrev pub Settled : Turn → Type 0
Settled t = t.flushed ≡ true → t.buffer ≡ []

abbrev with_payload : Option String → List String → List String
with_payload none rest = rest
with_payload (some payload) rest = payload ∷ rest

-- the payloads that the lines carry
abbrev pub payloads : List String → List String
unfolding payload_of
payloads [] = []
payloads (line ∷ lines) = with_payload (payload_of line) (payloads lines)

map-append : (xs ys : List String) → map text (xs ++ ys) ≡ map text xs ++ map text ys
map-append [] ys = refl
map-append (x ∷ xs) ys = ap (λ rest. text x ∷ rest) (map-append xs ys)

sent_at_once :
    (sent : List Message) (m : Message) (buffer : List String)
    → buffer ≡ []
    → (sent ++ m ∷ []) ++ map text buffer ≡ (sent ++ map text buffer) ++ m ∷ []
sent_at_once sent m buffer empty =
    rw empty (append-nil (sent ++ m ∷ []) ∙ ap (λ before. before ++ m ∷ []) (sym (append-nil sent)))

buffered :
    (sent : List Message) (payload : String) (buffer : List String)
    → sent ++ map text (buffer ++ payload ∷ []) ≡ (sent ++ map text buffer) ++ text payload ∷ []
buffered sent payload buffer =
    ap (λ later. sent ++ later) (map-append buffer (payload ∷ []))
    ∙ sym (append_assoc sent (map text buffer) (text payload ∷ []))

-- a payload comes behind all that went before it
hand_on-shown :
    (payload : String) (t : Turn)
    → Settled t
    → (shown (hand_on payload t) ≡ shown t ++ text payload ∷ []) × Settled (hand_on payload t)
unfolding hand_on
hand_on-shown payload t settled = elim (Bool-cases t.flushed) [
  | inl flushed ↦
      rw flushed
        (sent_at_once t.sent (text payload) t.buffer (settled flushed), λ h. settled flushed)
  | inr waiting ↦ elim (Bool-cases (flushes payload)) [
    | inl mark ↦ rw (waiting, mark) (append-nil _ ∙ buffered t.sent payload t.buffer, λ h. refl)
    | inr unmarked ↦ rw (waiting, unmarked) (buffered t.sent payload t.buffer, λ h. cc)
  ]
]

completed-shown :
    (loads : String → Option Value) (payload : String) (t : Turn)
    → (shown (completed loads payload t) ≡ shown t)
      × ((completed loads payload t).flushed ≡ t.flushed)
      × ((completed loads payload t).buffer ≡ t.buffer)
unfolding completed
completed-shown loads payload t = elim (Bool-cases (contains "response.completed" payload)) [
  | inl done ↦ rw done (refl, refl, refl)
  | inr other ↦ rw other (refl, refl, refl)
]

module _ (loads : String → Option Value) (final : Turn) (fine : final.got_error ≡ false) where
  raised_is_no_end : (t : Turn) → Left.raised t ≢ over final
  raised_is_no_end t same = cc

  -- that the payloads stand behind what is shown, in order
  abbrev Continues : Turn → List String → Type 0
  Continues t ps = shown final ≡ shown t ++ map text ps

  stopped : (t : Turn) → t.got_error ≡ true → Left.over t ≢ over final
  stopped t bad same = cc

  one_more :
      (t u : Turn) (payload : String) (ps : List String)
      → shown u ≡ shown t ++ text payload ∷ []
      → Continues u ps
      → Continues t (payload ∷ ps)
  one_more t u payload ps moved rest =
      rest
      ∙ ap (λ before. before ++ map text ps) moved
      ∙ append_assoc (shown t) (text payload ∷ []) (map text ps)

  handed :
      (payload : String) (t : Turn) (ps : List String)
      → Settled t
      → (Settled (hand_on payload (completed loads payload t))
          → Continues (hand_on payload (completed loads payload t)) ps)
      → Continues t (payload ∷ ps)
  handed payload t ps settled rest =
      let (same, flushed, buffer) = completed-shown loads payload t in
      let (moved, settled') =
        hand_on-shown payload (completed loads payload t)
          (λ h. buffer ∙ settled (sym flushed ∙ h)) in
      one_more t (hand_on payload (completed loads payload t)) payload ps
        (moved ∙ ap (λ before. before ++ text payload ∷ []) same) (rest settled')

  decided :
      (bad : Bool) (payload : String) (t : Turn) (ps : List String) (go : Turn → Left)
      → Settled t
      → follow loads
          (if bad
            then stop (failed loads payload t)
            else go_on (hand_on payload (completed loads payload t)))
          go
        ≡ over final
      → ((u : Turn) → Settled u → go u ≡ over final → Continues u ps)
      → Continues t (payload ∷ ps)
  unfolding failed
  decided true payload t ps go settled h rest = elim (stopped (failed loads payload t) refl h) [ ]
  decided false payload t ps go settled h rest =
      handed payload t ps settled
        (λ settled'. rest (hand_on payload (completed loads payload t)) settled' h)

  stepped :
      (overflow : Option String) (payload : String) (t : Turn) (ps : List String) (go : Turn → Left)
      → Settled t
      → follow loads (step_with loads payload t overflow) go ≡ over final
      → ((u : Turn) → Settled u → go u ≡ over final → Continues u ps)
      → Continues t (payload ∷ ps)
  unfolding step_with overflowed
  stepped (some sentence) payload t ps go settled h rest =
      elim (stopped (overflowed sentence t) refl h) [ ]
  stepped none payload t ps go settled h rest =
      decided (is_error payload) payload t ps go settled h rest

  line_read :
      (payload : Option String) (t : Turn) (ps : List String) (go : Turn → Left)
      → Settled t
      → read_payload loads payload t go ≡ over final
      → ((u : Turn) → Settled u → go u ≡ over final → Continues u ps)
      → Continues t (with_payload payload ps)
  unfolding read_payload
  line_read none t ps go settled h rest = rest t settled h
  line_read (some payload) t ps go settled h rest =
      stepped (overflow_in loads payload) payload t ps go settled h rest

  same_left : (t : Turn) → Left.over t ≡ over final → Continues t []
  same_left t h = let same : t ≡ final = cc in rw same (sym (append-nil (shown final)))

  continues :
      (broken : Bool) (lines : List String) (t : Turn)
      → Settled t
      → read_lines loads broken lines t ≡ over final
      → Continues t (payloads lines)
  unfolding read_lines payload_of
  continues true [] t settled h = elim (raised_is_no_end t h) [ ]
  continues false [] t settled h = same_left t h
  continues broken (line ∷ lines) t settled h =
      line_read (payload_of line) t (payloads lines) (read_lines loads broken lines) settled h
        (λ u settled' h'. continues broken lines u settled' h')

  -- An attempt whose loop ends with no error event and no overflow, whatever the lines are: the client
  -- was sent, or the buffer still holds, what it had before the attempt and then every payload of the
  -- lines, each once and in the order of the lines. The attempt starts with nothing buffered behind a
  -- flush.
  pub read_lines-order :
      (broken : Bool) (lines : List String) (t : Turn)
      → Settled t
      → read_lines loads broken lines t ≡ over final
      → shown final ≡ shown t ++ map text (payloads lines)
  read_lines-order broken lines t settled h = continues broken lines t settled h
