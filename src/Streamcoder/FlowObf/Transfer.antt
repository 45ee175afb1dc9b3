-- ===== src/Streamcoder/FlowObf/Transfer.antt =====
-- Write and Read of the wrapper on whole streams.
use revese_server.Base.{
  take-append-drop, append_assoc, ap, sym, subst, length-take, length-append, drop_all, take_all,
  arith, take, drop, ◌-◌, ◌<◌, ◌≤◌, length, ◌∙◌, Bool, ◌++◌, ◌≡◌, ℕ, List, refl, [], true, false,
}
use revese_server.Streamcoder.FlowObf.{
  FlowObf, read_frame, read_noise, read_data, obf_frame, read, obf_got,
}
use native.Mathlib.Decide.{dec_lt}
use revese_server.Base.Io.{read_full}

-- The input is a sequence of whole frames, whose data together is the list.
pub data Decodes (c : FlowObf) : List ℕ → List ℕ → Type 0 where
  at_end : Decodes c [] []
  at_frame :
      {input ds : List ℕ} (d rest es : List ℕ)
      → read_frame c input ≡ obf_frame d false rest
      → Decodes c rest es
      → ds ≡ d ++ es
      → Decodes c input ds

-- What remains of an earlier frame does not change how the next one is read.
read_frame-rem :
    (c : FlowObf) (x input : List ℕ) → read_frame (record c { rem = x }) input ≡ read_frame c input
unfolding read_frame read_noise read_data
read_frame-rem c x input = refl

Decodes-rem :
    (c : FlowObf) (x : List ℕ) {input ds : List ℕ}
    → Decodes c input ds
    → Decodes (record c { rem = x }) input ds
Decodes-rem c x at_end = at_end
Decodes-rem c x (at_frame d rest es r k e) =
    at_frame d rest es (read_frame-rem c x _ ∙ r) (Decodes-rem c x k) e

read_frame-nil : (c : FlowObf) → read_frame c [] ≡ obf_frame [] true []
unfolding read_frame read_full
read_frame-nil c = refl

module _ (c : FlowObf) (dlen : ℕ) where
  -- What a Read of dlen bytes leaves to be read after the bytes that it returns.
  pub record Progress (input ds : List ℕ) : Type 0 where
    pub next : FlowObf
    pub out : List ℕ
    pub failed : Bool
    pub rest : List ℕ
    pub pending : List ℕ
    pub result : read c dlen input ≡ obf_got next out failed rest
    pub fits : length out ≤ dlen
    pub coherent : Decodes next rest pending
    pub conserved : out ++ (next.rem ++ pending) ≡ c.rem ++ ds

-- One frame more, where the slice has room behind what remained.
read_frame_step :
    (c : FlowObf) (dlen : ℕ) (input d rest es : List ℕ) (e : Bool)
    → length c.rem < dlen
    → read_frame c input ≡ obf_frame d e rest
    → Decodes c rest es
    → Progress c dlen input (d ++ es)
unfolding read
read_frame_step c dlen input d rest es e h r k = record {
  next = record c { rem = drop room d };
  out = c.rem ++ take room d;
  failed = e;
  rest = rest;
  pending = es;
  result = ground (arith, r, take_all dlen c.rem (omega arith), drop_all dlen c.rem (omega arith));
  fits = omega (arith, length-append c.rem (take room d), length-take room d);
  coherent = Decodes-rem c (drop room d) k;
  conserved =
      append_assoc c.rem (take room d) (drop room d ++ es)
      ∙ ap (λ t. c.rem ++ t)
          (sym (append_assoc (take room d) (drop room d) es)
            ∙ ap (λ t. t ++ es) (take-append-drop room d));
}
  where
    room : ℕ
    room = dlen - length c.rem

read_next :
    (c : FlowObf) (dlen : ℕ) (input ds : List ℕ)
    → length c.rem < dlen
    → Decodes c input ds
    → Progress c dlen input ds
read_next c dlen input ds h at_end =
    read_frame_step c dlen [] [] [] [] true h (read_frame-nil c) at_end
read_next c dlen input ds h (at_frame d rest es r k e) =
    subst (Progress c dlen input) (sym e) (read_frame_step c dlen input d rest es false h r k)

read_rem :
    (c : FlowObf) (dlen : ℕ) (input ds : List ℕ)
    → dlen ≤ length c.rem
    → Decodes c input ds
    → Progress c dlen input ds
unfolding read
read_rem c dlen input ds h k = record {
  next = record c { rem = drop dlen c.rem };
  out = take dlen c.rem;
  failed = false;
  rest = input;
  pending = ds;
  result = ground (arith, length-take dlen c.rem);
  fits = omega (arith, length-take dlen c.rem);
  coherent = Decodes-rem c (drop dlen c.rem) k;
  conserved =
      sym (append_assoc (take dlen c.rem) (drop dlen c.rem) ds)
      ∙ ap (λ t. t ++ ds) (take-append-drop dlen c.rem);
}

-- Read on an input of whole frames returns at most as many bytes as were asked for, and these bytes,
-- with what remains in the wrapper and in the input, are exactly what was to be read before: nothing
-- is lost, repeated or reordered.
pub read-Progress :
    (c : FlowObf) (dlen : ℕ) (input ds : List ℕ) → Decodes c input ds → Progress c dlen input ds
read-Progress c dlen input ds k = elim (dec_lt (length c.rem) dlen) [
  | yes room ↦ read_next c dlen input ds room k
  | no full ↦ read_rem c dlen input ds (omega arith) k
]
