-- ===== src/QuicStream/Once.antt =====
-- FIN goes out once (quelay-quic/src/stream.rs).
use quelay.Common.{
  ℕ, ◌+◌, ◌≤◌, ◌≡◌, ◌≢◌, refl, sym, subst, true, false, List, [], ◌∷◌, ◌++◌, All, All-append, arith,
  Bool-cases, inl, inr,
}
use quelay.QuicStream.{
  QuinnCall, finish, reset, SendSide, Shape, whole, split, opened_stream, varint_max, varint,
  finish_stream, reset_stream, poll_shutdown, into_split, Op, finishes, shuts_down, splits, resets,
  on_op, run,
}

unfoldable pub fins : List QuinnCall → ℕ
fins [] = 0
fins (finish ∷ cs) = fins cs + 1
fins (reset code ∷ cs) = fins cs

-- A call that quinn accepts: an error code is a variable-length integer.
abbrev pub InRange : QuinnCall → Type 0
InRange finish = Unit
InRange (reset code) = code ≤ varint_max

-- The flag covers the calls.
record Good (s : SendSide) : Type 0 where
  before : s.finished ≡ false → s.calls ≡ []
  after : s.finished ≡ true → s.calls ≢ []
  once : fins s.calls ≤ 1
  codes : All InRange s.calls

fins-append : (xs ys : List QuinnCall) → fins (xs ++ ys) ≡ fins xs + fins ys
unfolding fins
fins-append [] ys = omega arith
fins-append (finish ∷ xs) ys = let ih = fins-append xs ys in omega arith
fins-append (reset code ∷ xs) ys = fins-append xs ys

called : (cs : List QuinnCall) (c : QuinnCall) → cs ++ c ∷ [] ≢ []
called [] c e = cc
called (x ∷ cs) c e = cc

varint_in_range : (code : ℕ) → varint code ≤ varint_max
unfolding varint
varint_in_range code = ground arith

poll_shutdown-Good : (s : SendSide) → Good s → Good (poll_shutdown s)
unfolding poll_shutdown fins
poll_shutdown-Good s g = elim (Bool-cases s.finished) [
  | inl over ↦ let same : poll_shutdown s ≡ s = ground arith in subst Good (sym same) g
  | inr fresh ↦
      rw (poll_shutdown, fresh)
        (rw (g.before fresh) (record {
          before = λ e. cc;
          after = λ e. called [] finish;
          once = omega arith;
          codes = (tt, tt);
        }))
]

finish_stream-poll_shutdown : (s : SendSide) → (finish_stream s).0 ≡ poll_shutdown s
unfolding finish_stream poll_shutdown
finish_stream-poll_shutdown s = ground arith

reset_stream-Good : (code : ℕ) (s : SendSide) → Good s → Good (reset_stream code s).0
unfolding reset_stream fins
reset_stream-Good code s g = record {
  before = λ e. cc;
  after = λ e. called s.calls (reset (varint code));
  once = omega (arith, g.once, fins-append s.calls (reset (varint code) ∷ []));
  codes = All-append InRange s.calls (reset (varint code) ∷ []) g.codes (varint_in_range code, tt);
}

on_op-Good : (op : Op) (shape : Shape) (s : SendSide) → Good s → Good (on_op op shape s).1
unfolding on_op into_split
on_op-Good finishes whole s g = rw (finish_stream-poll_shutdown s) (poll_shutdown-Good s g)
on_op-Good finishes split s g = g
on_op-Good shuts_down shape s g = poll_shutdown-Good s g
on_op-Good splits whole s g = record {
  before = g.before;
  after = g.after;
  once = g.once;
  codes = g.codes;
}
on_op-Good splits split s g = g
on_op-Good (resets code) whole s g = reset_stream-Good code s g
on_op-Good (resets code) split s g = g

run-Good : (ops : List Op) (shape : Shape) (s : SendSide) → Good s → Good (run ops shape s).1
unfolding run
run-Good [] shape s g = g
run-Good (op ∷ ops) shape s g = run-Good ops _ _ (on_op-Good op shape s g)

-- Whatever is done with a stream, before and after the split: quinn is told at most once to finish it,
-- each reset has a code that quinn can send, and the stream counts as finished exactly if quinn was told
-- to finish or to reset it.
pub finished_once :
    (ops : List Op)
    → let (shape, s) = run ops whole opened_stream in
      (fins s.calls ≤ 1)
      × All InRange s.calls
      × (s.finished ≡ false → s.calls ≡ [])
      × (s.finished ≡ true → s.calls ≢ [])
unfolding opened_stream fins
finished_once ops =
    let g =
      run-Good ops whole opened_stream
        (record { before = λ e. refl; after = λ e. absurd (cc); once = omega arith; codes = tt }) in
    (g.once, g.codes, g.before, g.after)
