-- ===== src/Grpc/Frames/Laws.antt =====
-- `unframe` against the frames that a body is made of.
use mathlib.Core.List.{append-nil, append_assoc}
use mathlib.Core.Path.{subst}
use nft_gate.Base.{
  Option-cases, ℕ, zero, suc, ◌+◌, ◌*◌, ◌/◌, ◌%◌, ◌^◌, ◌≤◌, ◌<◌, ◌≡◌, refl, sym, ap, ◌∙◌, inl, inr,
  Bool, true, false, Option, none, some, List, [], ◌∷◌, ◌++◌, leb, if◌then◌else◌, length, take,
  drop, arith, All, length-append, take-append, drop-append,
}
use nft_gate.Base.Options.{◌>>=◌}
use nft_gate.Base.Ints.{ℤ, pos, negsuc}
use nft_gate.Text.{Text}
use nft_gate.Grpc.Wire.{Bytes}
use nft_gate.Grpc.Frames.{
  max_grpc_message_bytes, be_bytes, Fault, failed, and_then, parse_status, status_of_trailer,
  Progress, take_frame, take_frames, finished, unframe,
}
use nft_gate.Ports.{Exit, stop, pass}

-- A flag and a payload.
abbrev pub Frame : Type 0
Frame = ℕ × Bytes

unfoldable pub encode : List Frame → Bytes
unfolding be_bytes
encode [] = []
encode ((flag, payload) ∷ fs) = flag ∷ (be_bytes (length payload) ++ (payload ++ encode fs))

-- The frames one by one, until one fails.
unfoldable pub judge : List Frame → Progress → Exit Fault Progress
judge [] p = pass p
judge ((flag, payload) ∷ fs) p = and_then (take_frame flag payload p) (judge fs)

abbrev pub IsFrame : Frame → Type 0
IsFrame f = length f.1 < 2 ^ 32

be_value :
    (n : ℕ)
    → n < 2 ^ 32
    → ((n / 0x100_0000 % 256 * 256 + n / 0x1_0000 % 256) * 256 + n / 256 % 256) * 256 + n % 256 ≡ n
be_value n h = omega arith

-- The rest of a round, by the test of the length and the two parts that it cuts.
unfoldable go_on : ℕ → ℕ → Bool → Bytes → Bytes → Progress → Exit Fault Progress
go_on rounds flag fits payload rest p =
    if fits then and_then (take_frame flag payload p) (take_frames rounds rest) else stop failed

take_frames_round :
    (rounds flag a b c d : ℕ) (s : Bytes) (p : Progress)
    → take_frames (suc rounds) (flag ∷ a ∷ b ∷ c ∷ d ∷ s) p ≡ (
        let n = ((a * 256 + b) * 256 + c) * 256 + d in
        go_on rounds flag (leb n (length s)) (take n s) (drop n s) p)
unfolding take_frames go_on
take_frames_round rounds flag a b c d s p = refl

leb_append : (xs ys : Bytes) → leb (length xs) (length (xs ++ ys)) ≡ true
leb_append xs ys = ground (arith, length-append xs ys)

go_on_lem :
    (rounds flag n : ℕ) (payload s : Bytes) (p : Progress)
    → n ≡ length payload
    → go_on rounds flag
        (leb n (length (payload ++ s)))
        (take n (payload ++ s))
        (drop n (payload ++ s))
        p
      ≡ go_on rounds flag true payload s p
go_on_lem rounds flag n payload s p h =
    rw (h, leb_append payload s, take-append payload s, drop-append payload s) refl

length-encode :
    (flag : ℕ) (payload : Bytes) (fs : List Frame)
    → length (encode ((flag, payload) ∷ fs)) ≡ 5 + (length payload + length (encode fs))
unfolding encode
length-encode flag payload fs = omega (arith, length-append payload (encode fs))

no_frames : (rounds : ℕ) (p : Progress) → take_frames rounds (encode []) p ≡ judge [] p
unfolding take_frames encode judge
no_frames zero p = refl
no_frames (suc rounds) p = refl

encoded :
    (rounds flag : ℕ) (payload : Bytes) (fs : List Frame) (p : Progress)
    → (let n = length payload in
        take_frames rounds (encode ((flag, payload) ∷ fs)) p
        ≡ take_frames rounds
            (flag
              ∷ n / 0x100_0000 % 256
              ∷ n / 0x1_0000 % 256
              ∷ n / 256 % 256
              ∷ n % 256
              ∷ (payload ++ encode fs))
            p)
unfolding encode be_bytes
encoded rounds flag payload fs p = refl

-- The frames after the first, by what the first gives.
go_on-judge :
    (rounds flag : ℕ) (payload : Bytes) (fs : List Frame) (p : Progress)
    → ((p' : Progress) → take_frames rounds (encode fs) p' ≡ judge fs p')
    → go_on rounds flag true payload (encode fs) p ≡ judge ((flag, payload) ∷ fs) p
unfolding go_on judge
go_on-judge rounds flag payload fs p h = same (take_frame flag payload p)
  where
    same :
        (x : Exit Fault Progress)
        → and_then x (take_frames rounds (encode fs)) ≡ and_then x (judge fs)
    same (stop e) = refl
    same (pass p') = h p'

take_frames-encode :
    (rounds : ℕ) (fs : List Frame) (p : Progress)
    → All IsFrame fs
    → length (encode fs) ≤ rounds
    → take_frames rounds (encode fs) p ≡ judge fs p
take_frames-encode zero [] p h enough = no_frames 0 p
take_frames-encode (suc rounds) [] p h enough = no_frames (suc rounds) p
take_frames-encode zero ((flag, payload) ∷ fs) p h enough =
    absurd (omega (arith, length-encode flag payload fs))
take_frames-encode (suc rounds) ((flag, payload) ∷ fs) p h enough =
    encoded (suc rounds) flag payload fs p
    ∙ take_frames_round rounds flag _ _ _ _ (payload ++ encode fs) p
    ∙ go_on_lem rounds flag _ payload (encode fs) p (be_value (length payload) h.0)
    ∙ go_on-judge rounds flag payload fs p
        (λ p'. take_frames-encode rounds fs p' h.1 (omega (arith, length-encode flag payload fs)))

-- On a body made of frames, each a flag and a payload shorter than 2^32 bytes, unframe is the
-- fold of the frames in order, stopping at the first that fails, from the status of the headers,
-- followed by the test of the status: the lengths are read as written and no frame is skipped or
-- cut.
pub unframe-encode :
    (header : Option Text) (fs : List Frame)
    → All IsFrame fs
    → unframe header (encode fs) ≡ finished (judge fs (header >>= parse_status, []))
unfolding unframe
unframe-encode header fs h =
    ap finished (take_frames-encode (length (encode fs)) fs _ h (omega arith))

abbrev pub data_frames : List Bytes → List Frame
data_frames [] = []
data_frames (b ∷ bs) = (0, b) ∷ data_frames bs

abbrev pub concat : List Bytes → Bytes
concat [] = []
concat (b ∷ bs) = b ++ concat bs

take_data :
    (payload : Bytes) (status : Option ℤ) (msg : Bytes)
    → length (msg ++ payload) ≤ max_grpc_message_bytes
    → take_frame 0 payload (status, msg) ≡ pass (status, msg ++ payload)
unfolding take_frame
take_data payload status msg h = ground (arith, length-append msg payload)

pub judge-data_frames :
    (bs : List Bytes) (status : Option ℤ) (msg : Bytes)
    → length (msg ++ concat bs) ≤ max_grpc_message_bytes
    → judge (data_frames bs) (status, msg) ≡ pass (status, msg ++ concat bs)
unfolding judge
judge-data_frames [] status msg h = ap (λ m. pass (status, m)) (sym (append-nil msg))
judge-data_frames (b ∷ bs) status msg h =
    rw
      (
        take_data b status msg (
            omega (
              arith,
              length-append msg b,
              length-append b (concat bs),
              length-append msg (b ++ concat bs),
            )),
        judge-data_frames bs status (msg ++ b) (
            subst (λ m. length m ≤ max_grpc_message_bytes) (sym (append_assoc msg b (concat bs)))
              h),
        append_assoc msg b (concat bs),
      )
      refl

take_frame_bounded :
    (flag : ℕ) (payload : Bytes) (p p' : Progress)
    → length p.1 ≤ max_grpc_message_bytes
    → take_frame flag payload p ≡ pass p'
    → length p'.1 ≤ max_grpc_message_bytes
unfolding take_frame
take_frame_bounded flag payload (status, msg) p' h e =
    elim (Option-cases (status_of_trailer status payload)) [
      | inl q ↦ ground (arith, length-append msg payload)
      | inr (s, q) ↦ ground (arith, length-append msg payload)
    ]

go_on_bounded :
    (rounds flag : ℕ) (fits : Bool) (payload rest : Bytes) (p p' : Progress)
    → ((q : Progress)
        → length q.1 ≤ max_grpc_message_bytes
        → take_frames rounds rest q ≡ pass p'
        → length p'.1 ≤ max_grpc_message_bytes)
    → length p.1 ≤ max_grpc_message_bytes
    → go_on rounds flag fits payload rest p ≡ pass p'
    → length p'.1 ≤ max_grpc_message_bytes
unfolding go_on
go_on_bounded rounds flag false payload rest p p' next h e = absurd (cc)
go_on_bounded rounds flag true payload rest p p' next h e = after (take_frame flag payload p) refl e
  where
    after :
        (x : Exit Fault Progress)
        → take_frame flag payload p ≡ x
        → and_then x (take_frames rounds rest) ≡ pass p'
        → length p'.1 ≤ max_grpc_message_bytes
    after (stop f) a b = absurd (cc)
    after (pass q) a b = next q (take_frame_bounded flag payload p q h a) b

take_frames_bounded :
    (rounds : ℕ) (body : Bytes) (p p' : Progress)
    → length p.1 ≤ max_grpc_message_bytes
    → take_frames rounds body p ≡ pass p'
    → length p'.1 ≤ max_grpc_message_bytes
unfolding take_frames
take_frames_bounded zero [] p p' h e = ground (arith, h, e)
take_frames_bounded (suc rounds) [] p p' h e = ground (arith, h, e)
take_frames_bounded zero (a ∷ s) p p' h e = absurd (cc)
take_frames_bounded (suc rounds) (flag ∷ a ∷ b ∷ c ∷ d ∷ s) p p' h e =
    go_on_bounded rounds flag _ _ (drop (((a * 256 + b) * 256 + c) * 256 + d) s) p p'
      (λ q. take_frames_bounded rounds (drop (((a * 256 + b) * 256 + c) * 256 + d) s) q p') h
      (sym (take_frames_round rounds flag a b c d s p) ∙ e)
take_frames_bounded (suc rounds) (a ∷ []) p p' h e = absurd (cc)
take_frames_bounded (suc rounds) (a ∷ b ∷ []) p p' h e = absurd (cc)
take_frames_bounded (suc rounds) (a ∷ b ∷ c ∷ []) p p' h e = absurd (cc)
take_frames_bounded (suc rounds) (a ∷ b ∷ c ∷ d ∷ []) p p' h e = absurd (cc)

-- A message that unframe gives has at most 4 MiB.
unframe-length :
    (header : Option Text) (body msg : Bytes)
    → unframe header body ≡ pass msg
    → length msg ≤ max_grpc_message_bytes
unfolding unframe
unframe-length header body msg h =
    done (take_frames (length body) body (header >>= parse_status, [])) refl h
  where
    done :
        (x : Exit Fault Progress)
        → take_frames (length body) body (header >>= parse_status, []) ≡ x
        → finished x ≡ pass msg
        → length msg ≤ max_grpc_message_bytes
    done (stop e) a b = absurd (cc)
    done (pass (none, m)) a b = absurd (cc)
    done (pass (some (pos zero), m)) a b =
        ground
          (arith, b, take_frames_bounded (length body) body _ (some (pos 0), m) (omega arith) a)
    done (pass (some (pos (suc n)), m)) a b = absurd (cc)
    done (pass (some (negsuc n), m)) a b = absurd (cc)

-- With status 0 in the headers, the data frames of a message that is short enough give the message.
pub unframe-data_frames :
    (header : Option Text) (bs : List Bytes)
    → header >>= parse_status ≡ some (pos 0)
    → All IsFrame (data_frames bs)
    → length (concat bs) ≤ max_grpc_message_bytes
    → unframe header (encode (data_frames bs)) ≡ pass (concat bs)
unframe-data_frames header bs z f h =
    unframe-encode header (data_frames bs) f ∙ rw (z, judge-data_frames bs (some (pos 0)) [] h) refl
