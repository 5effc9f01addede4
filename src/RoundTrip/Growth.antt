-- ===== src/RoundTrip/Growth.antt =====
-- Every nested function takes a byte at least, so the size of a dump bounds the nesting.
use luava.Base.{ℕ, ◌+◌, ◌%◌, ◌≤◌, ◌<◌, ap, arith}
use luava.Base.{Bool, List, [], ◌∷◌, length, length-append}
use luava.Proto.{Proto, Protos, count, FitsProto, FitsProtos}
use luava.Dump.{Dump, skip, dump_bytes, dump_block, dump_byte, dump_function, dump_protos}
use luava.Undump.{Load}
use luava.RoundTrip.Sync.{buffer_writer, Buffered, Ready, RoundTrip}
use luava.RoundTrip.Blocks.{byte_lem}
use luava.RoundTrip.Varint.{int_lem}
use luava.RoundTrip.Arrays.{code_lem, constants_lem, upvalues_lem}
use luava.RoundTrip.Debugs.{source_lem, debug_lem}
use luava.RoundTrip.Functions.{depth, depth_all}

module _ (strip : Bool) where
  -- The dump goes on without an error and adds `n` bytes or more.
  record Grows (n : ℕ) (m : Dump (List ℕ)) : Type 0 where
    ready : (D : Buffered) → Ready strip D → Ready strip (m D)
    more : (D : Buffered) → Ready strip D → length D.sink + n ≤ length (m D).sink

  Grows-of :
      {A : Type 0} {m : Dump (List ℕ)} {l : Load A} {v : A} → RoundTrip strip m l v → Grows 0 m
  Grows-of p = record {
    ready = λ D r. (p D r).ready;
    more = λ D r.
        let w = p D r in omega (arith, ap (length {0}) w.sink, length-append {0} D.sink w.bytes);
  }

  Grows-skip : Grows 0 skip
  Grows-skip = record { ready = λ D r. r; more = λ D r. omega arith }

  Grows-bind :
      {m k : Dump (List ℕ)} (a b n : ℕ) → Grows a m → Grows b k → n ≤ a + b → Grows n (λ D. k (m D))
  Grows-bind {m} a b n p q h = record {
    ready = λ D r. q.ready (m D) (p.ready D r);
    more = λ D r. omega (arith, p.more D r, q.more (m D) (p.ready D r));
  }

  then_more : {m k : Dump (List ℕ)} (n : ℕ) → Grows 0 m → Grows n k → Grows n (λ D. k (m D))
  then_more n p q = Grows-bind 0 n n p q (omega arith)

  byte_ready : (y : ℕ) → y < 256 → Grows 0 (dump_byte buffer_writer y)
  byte_ready y h = Grows-of (byte_lem strip y h)

  byte-Grows : (y : ℕ) → y < 256 → Grows 1 (dump_byte buffer_writer y)
  unfolding dump_byte dump_bytes dump_block buffer_writer
  byte-Grows y h = record {
    ready = (byte_ready y h).ready;
    more = λ D r. rw r.no_error (omega (arith, length-append {0} D.sink (y % 256 ∷ [])));
  }

  mutual
    unfolding depth dump_function dump_protos

    function-Grows : (p : Proto) → FitsProto p → Grows (depth p) (dump_function buffer_writer p)
    function-Grows (Proto.proto f ps) (h, n, hs) =
        then_more (depth (Proto.proto f ps)) (Grows-of (int_lem strip f.linedefined h.linedefined))
          (then_more _ (Grows-of (int_lem strip f.lastlinedefined h.lastlinedefined)) (
            Grows-bind 1 (depth_all ps) _ (byte-Grows f.numparams h.numparams)
              (then_more _ (Grows-of (byte_lem strip f.flag h.flag)) (
                then_more _ (Grows-of (byte_lem strip f.maxstacksize h.maxstacksize)) (
                  then_more _ (Grows-of (code_lem strip f h.code)) (
                    then_more _ (Grows-of (constants_lem strip f h.k)) (
                      then_more _ (Grows-of (upvalues_lem strip f h.upvalues)) (
                        then_more _ (Grows-of (int_lem strip (count ps) n)) (
                          Grows-bind (depth_all ps) 0 _ (protos-Grows ps hs)
                            (then_more 0 (Grows-of (source_lem strip f h.source))
                              (Grows-of (debug_lem strip f h)))
                            (omega arith))))))))
              (omega arith)))

    protos-Grows :
        (ps : Protos) → FitsProtos ps → Grows (depth_all ps) (dump_protos buffer_writer ps)
    protos-Grows Protos.end h = Grows-skip
    protos-Grows (Protos.next p ps) h =
        Grows-bind (depth p) (depth_all ps) _ (function-Grows p h.0) (protos-Grows ps h.1)
          (omega arith)

-- The dump of a function has at least as many bytes as functions are nested in it.
pub depth-le-dump :
    (strip : Bool) (p : Proto) (D : Buffered)
    → FitsProto p
    → Ready strip D
    → length D.sink + depth p ≤ length (dump_function buffer_writer p D).sink
depth-le-dump strip p D h r = (function-Grows strip p h).more D r
