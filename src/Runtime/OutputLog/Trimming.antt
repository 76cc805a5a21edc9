-- ===== src/Runtime/OutputLog/Trimming.antt =====
-- trimTo and append of src/runtime/output-log.ts: what is retained of the stream.
use mcp_dev_runtime.Base.{
  ℕ, zero, suc, ◌+◌, ◌-◌, ◌≤◌, ◌<◌, ◌*◌, true, false, ◌&&◌, Bytes, [], ltb, ◌==◌, length, drop,
  get_or, ◌≡◌, refl, sym, ap, ◌∙◌, arith, length-drop, Bool-cases, inl, inr, subst, and-eq_true,
  ==_iff,
}
use mcp_dev_runtime.Base.Slices.{drop_all, drop-drop, get_or-drop}
use mcp_dev_runtime.Runtime.Utf8.{continuation}
use mcp_dev_runtime.Runtime.OutputLog.Blocks.{ended, contents, Chain, byte_in-contents}
use mcp_dev_runtime.Runtime.OutputLog.Gather.{ended-le, ended-Chain}
use mcp_dev_runtime.Runtime.OutputLog.Refinement.{Represents, Holds}
use mcp_dev_runtime.Runtime.OutputLog.{OutputLog, byte_at, skip_continuation, release_blocks}

-- A byte of the log is the byte of the stream at that offset.
pub byte_at-stream :
    (log : OutputLog) (stream : Bytes) (offset : ℕ)
    → Represents log stream
    → log.retained_from ≤ offset
    → byte_at log offset ≡ get_or stream offset 0
unfolding byte_at
byte_at-stream log stream offset r h =
    byte_in-contents offset r.base (drop log.head log.blocks) log.end r.holds.chain
      (omega (arith, r.base_le))
    ∙ ap (λ l. get_or l (offset - r.base) 0) r.holds.bytes
    ∙ get_or-drop r.base (offset - r.base) 0 stream
    ∙ ap (λ k. get_or stream k 0) (omega (arith, r.base_le))

-- `retained` is the first position from `from` on that does not split a code point.
pub record IsFirstBoundary (stream : Bytes) (from retained : ℕ) : Type 0 where
  pub from_le : from ≤ retained
  pub within : retained ≤ length stream
  pub skipped : (o : ℕ) → from ≤ o → o < retained → continuation (get_or stream o 0) ≡ true
  pub stop : retained < length stream → continuation (get_or stream retained 0) ≡ false

pub skip_continuation-IsFirstBoundary :
    (left : ℕ) (log : OutputLog) (stream : Bytes) (from : ℕ)
    → Represents log stream
    → log.retained_from ≤ from
    → from + left ≡ log.end
    → IsFirstBoundary stream from (skip_continuation left log from)
unfolding skip_continuation
skip_continuation-IsFirstBoundary zero log stream from r h e = record {
  from_le = omega arith;
  within = omega (arith, r.end_length);
  skipped = λ o p q. absurd (omega arith);
  stop = λ p. absurd (omega (arith, r.end_length));
}
skip_continuation-IsFirstBoundary (suc left) log stream from r h e =
    elim (Bool-cases (ltb from log.end && continuation (byte_at log from))) [
      | inl more ↦
          let here : continuation (byte_at log from) ≡ true =
            (and-eq_true (ltb from log.end) (continuation (byte_at log from)) more).1 in
          let open' : from < log.end = ground arith in
          let rest =
            skip_continuation-IsFirstBoundary left log stream (from + 1) r (omega arith)
              (omega arith) in
          rw more (record {
            from_le = omega (arith, rest.from_le);
            within = rest.within;
            skipped = λ o p q. elim (Bool-cases (from == o)) [
              | inl same ↦
                  subst (λ k. continuation (get_or stream k 0) ≡ true) ((==_iff from o).0 same)
                    (sym (ap continuation (byte_at-stream log stream from r h)) ∙ here)
              | inr later ↦ rest.skipped o (ground arith) q
            ];
            stop = rest.stop;
          })
      | inr done ↦ rw done (record {
        from_le = omega arith;
        within = omega (arith, r.end_length);
        skipped = λ o p q. absurd (omega arith);
        stop =
            λ p. ground (arith, r.end_length, ap continuation (byte_at-stream log stream from r h));
      })
    ]

-- What `release_blocks` gives up lies before `from`.
module _ (log : OutputLog) (stream : Bytes) (from : ℕ) (r : Represents log stream) where
  passed : ℕ
  passed = log.head + ended from (drop log.head log.blocks)

  -- The blocks behind the new head hold the stream from a base at `from` or before.
  Held : Type 0
  Held = (base : ℕ) × (base ≤ from) × Holds log.blocks passed log.end base stream

  held : log.retained_from ≤ from → Held
  unfolding Held passed
  held h =
      let (t, lo, hi, c, same) =
        ended-Chain from r.base (drop log.head log.blocks) log.end r.holds.chain
          (omega (arith, r.base_le)) in
      let moved = drop-drop (ended from (drop log.head log.blocks)) log.head log.blocks in
      (
        t,
        hi,
        record {
          chain = subst (λ bs. Chain t bs log.end) moved c;
          bytes =
              sym (ap contents moved)
              ∙ same
              ∙ ap (drop (t - r.base)) r.holds.bytes
              ∙ drop-drop (t - r.base) r.base stream
              ∙ ap (λ k. drop k stream) (omega arith);
        },
      )

  passed-le : passed ≤ length log.blocks
  unfolding passed
  passed-le =
      ground (
        arith,
        ended-le from (drop log.head log.blocks),
        length-drop log.head log.blocks,
        r.head_in,
      )

  module _ (h : log.retained_from ≤ from) (k : from ≤ log.end) where
    emptied :
        passed ≡ length log.blocks
        → Represents (record log { blocks = []; head = 0; retained_from = from }) stream
    unfolding Held
    emptied e = record {
      end_length = r.end_length;
      within = k;
      head_in = inr (refl, refl);
      base = at.0;
      base_le = at.1;
      holds = record {
        chain = subst (λ bs. Chain at.0 bs log.end) gone at.2.chain;
        bytes = ap contents (sym gone) ∙ at.2.bytes;
      };
    }
      where
        at : (base : ℕ) × (base ≤ from) × Holds log.blocks passed log.end base stream
        at = held h

        gone : drop passed log.blocks ≡ []
        gone = drop_all passed log.blocks (omega (arith, e))

    pub release_blocks-Represents : Represents (release_blocks log from) stream
    unfolding release_blocks passed Held
    release_blocks-Represents = elim (Bool-cases (passed == length log.blocks)) [
      | inl full ↦ rw (full, release_blocks) (emptied ((==_iff passed (length log.blocks)).0 full))
      | inr more ↦
          let inside : passed < length log.blocks = ground (arith, passed-le) in
          elim (Bool-cases (ltb 32 passed && ltb (length log.blocks) (passed * 2))) [
            | inl many ↦
                rw (more, many, release_blocks)
                  (record {
                    end_length = r.end_length;
                    within = k;
                    head_in = inl (omega (arith, length-drop passed log.blocks));
                    base = (held h).0;
                    base_le = (held h).1;
                    holds = record { chain = (held h).2.chain; bytes = (held h).2.bytes };
                  })
            | inr few ↦
                rw (more, few, release_blocks)
                  (record {
                    end_length = r.end_length;
                    within = k;
                    head_in = inl inside;
                    base = (held h).0;
                    base_le = (held h).1;
                    holds = (held h).2;
                  })
          ]
    ]

pub retained_from-release_blocks :
    (log : OutputLog) (from : ℕ) → (release_blocks log from).retained_from ≡ from
unfolding release_blocks
retained_from-release_blocks log from = ground arith
