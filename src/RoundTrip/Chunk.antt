-- ===== src/RoundTrip/Chunk.antt =====
-- The whole chunk, header included: luaU_dump against luaU_undump.
use luava.Base.{ℕ, suc, ◌^◌, ◌≤◌, ◌<◌, ◌≡◌, refl, ap, ◌∙◌, arith}
use luava.Base.{
  Bool, true, false, none, List, [], ◌∷◌, ◌++◌, length, length-append, length-map, ◌==◌, drop,
}
use luava.Zio.{Zio}
use luava.Zio.Contents.{contents}
use luava.Proto.{
  Proto, size_upvalues, FitsProto, signature, luac_data, luac_version, luac_format, luac_int,
  luac_integer, luac_inst, luac_num,
}
use luava.Dump.{
  Dump, skip, dump, dump_chunk, dump_header, dump_num_info, dump_bytes, dump_block, dump_byte,
  dump_function, saved_index,
}
use luava.Undump.{
  LoadState, LoadError, Load, ok, ◌>>=◌, ◌>>◌, pure, guard, load_byte, check_literal, check_num,
  check_header, load_chunk, undump,
}
use luava.RoundTrip.Sync.{
  buffer_writer, Buffered, Sync, Ready, Written-cong, RoundTrip, RoundTrip-bind, RoundTrip-pure,
}
use luava.RoundTrip.Blocks.{block_lem, byte_lem, word_lem}
use luava.RoundTrip.Strings.{str_eq_refl}
use luava.RoundTrip.Debugs.{visible, visible_body}
use luava.RoundTrip.Functions.{depth, function_lem}
use luava.RoundTrip.Arrays.{unnamed}
use luava.RoundTrip.Growth.{depth-le-dump}

size_upvalues-visible :
    (strip : Bool) (p : Proto) → size_upvalues (visible strip p) ≡ size_upvalues p
unfolding size_upvalues visible visible_body
size_upvalues-visible true (Proto.proto f ps) = length-map f.upvalues unnamed
size_upvalues-visible false (Proto.proto f ps) = refl

module _ (strip : Bool) where
  -- A test that passes does nothing.
  guard_lem : (b : Bool) (e : LoadError) → b ≡ true → RoundTrip strip skip (guard b e) tt
  guard_lem b e h D r =
      Written-cong strip skip skip (guard b e) (pure tt) D refl (λ S s. rw h)
        (RoundTrip-pure strip tt D r)

  literal_lem :
      (s : List ℕ) (msg : LoadError)
      → RoundTrip strip (dump_bytes buffer_writer s) (check_literal s msg) tt
  unfolding check_literal
  literal_lem s msg = RoundTrip-bind strip _ (block_lem strip s) (guard_lem _ msg (str_eq_refl s))

  num_lem :
      (tname width value : ℕ)
      → width < 256
      → value < 256 ^ width
      → RoundTrip strip (dump_num_info buffer_writer width value) (check_num tname width value) tt
  unfolding check_num dump_num_info
  num_lem tname width value h k = RoundTrip-bind strip _ (byte_lem strip width h) (
      RoundTrip-bind strip _ (guard_lem (width == width) _ (ground arith)) (
        RoundTrip-bind strip _ (word_lem strip width value k)
          (guard_lem (value == value) _ (ground arith))))

  -- The header but its first byte, which is read before luaU_undump is called.
  abbrev header_rest : Dump (List ℕ)
  header_rest D = dump_num_info buffer_writer 8 luac_num (
      dump_num_info buffer_writer 8 luac_integer (
        dump_num_info buffer_writer 4 luac_inst (
          dump_num_info buffer_writer 4 luac_int (
            dump_bytes buffer_writer luac_data (
              dump_byte buffer_writer luac_format (
                dump_byte buffer_writer luac_version
                  (dump_bytes buffer_writer (drop 1 signature) D)))))))

  then_lem :
      {B : Type 0} {m k : Dump (List ℕ)} {l : Load (Unit {0})} {j : Load B} {w : B}
      → RoundTrip strip m l tt
      → RoundTrip strip k j w
      → RoundTrip strip (λ D. k (m D)) (l >> j) w
  then_lem {j} p q = RoundTrip-bind strip (λ _. j) p q

  -- A byte that must be `y`.
  expect_lem :
      {B : Type 0} {k : Dump (List ℕ)} {j : Load B} {w : B} (y : ℕ) (e : LoadError)
      → y < 256
      → RoundTrip strip k j w
      → RoundTrip strip
          (λ D. k (dump_byte buffer_writer y D))
          (load_byte >>= λ b. guard (b == y) e >> j)
          w
  expect_lem {j} y e h q =
      RoundTrip-bind strip (λ b. guard (b == y) e >> j) (byte_lem strip y h)
        (then_lem (guard_lem (y == y) e (ground arith)) q)

  header_lem : RoundTrip strip header_rest check_header tt
  unfolding check_header
  header_lem = then_lem (literal_lem (drop 1 signature) LoadError.not_binary_chunk) (
      expect_lem luac_version LoadError.version_mismatch (omega arith) (
        expect_lem luac_format LoadError.format_mismatch (omega arith) (
          then_lem (literal_lem luac_data LoadError.corrupted_chunk) (
            then_lem (num_lem 0 4 luac_int (omega arith) (omega arith)) (
              then_lem (num_lem 1 4 luac_inst (omega arith) (omega arith)) (
                then_lem (num_lem 2 8 luac_integer (omega arith) (omega arith))
                  (num_lem 3 8 luac_num (omega arith) (omega arith))))))))

  -- The NULL block that ends the dump adds nothing.
  end_lem : {A : Type 0} (v : A) → RoundTrip strip (dump_block buffer_writer none) (pure v) v
  unfolding dump_block buffer_writer
  end_lem v D r =
      Written-cong strip _ skip (pure v) (pure v) D (rw r.no_error) (λ S s. refl)
        (RoundTrip-pure strip v D r)

  before_function : Proto → Dump (List ℕ)
  before_function p D = dump_byte buffer_writer (size_upvalues p) (header_rest D)

  chunk_lem :
      (fuel : ℕ) (p : Proto)
      → depth p ≤ fuel
      → FitsProto p
      → size_upvalues p < 256
      → RoundTrip strip
          (λ D. dump_block buffer_writer none (dump_function buffer_writer p (before_function p D)))
          (load_chunk fuel)
          (size_upvalues p, visible strip p)
  unfolding load_chunk before_function
  chunk_lem fuel p d h n = RoundTrip-bind strip _ header_lem (
      RoundTrip-bind strip _ (byte_lem strip (size_upvalues p) n) (
        RoundTrip-bind strip _ (function_lem strip fuel p d h) (
          then_lem
            (guard_lem (size_upvalues p == size_upvalues (visible strip p))
              LoadError.corrupted_chunk (ground (arith, size_upvalues-visible strip p)))
            (end_lem (size_upvalues p, visible strip p)))))

abbrev start : Bool → Buffered
start strip = record { sink = []; offset = 0; strip = strip; status = 0; h = []; nstr = 0 }

-- After the first byte of the signature.
abbrev first_byte : Bool → Buffered
first_byte strip = record {
  sink = 0x1b ∷ [];
  offset = 1;
  strip = strip;
  status = 0;
  h = [];
  nstr = 0;
}

abbrev load_start : Zio → LoadState
load_start z = record { z = z; h = []; offset = 1; nstr = 0; fixed = false }

dump_signature :
    (strip : Bool)
    → dump_bytes buffer_writer signature (start strip)
      ≡ dump_bytes buffer_writer (drop 1 signature) (first_byte strip)
unfolding dump_bytes dump_block buffer_writer
dump_signature strip = refl

first_byte-Ready : (strip : Bool) → Ready strip (first_byte strip)
unfolding saved_index
first_byte-Ready strip = record {
  no_error = refl;
  strips = refl;
  few = omega arith;
  in_range = omega arith;
  counted = omega arith;
  word_index = λ ts i e. absurd (cc);
}

first_byte-Sync : (strip : Bool) (z : Zio) → Sync (first_byte strip) (load_start z)
unfolding saved_index
first_byte-Sync strip z = record {
  offsets = refl;
  counts = refl;
  copies = refl;
  indexed = λ ts i e. absurd (cc);
  stored = λ ts i e. absurd (cc);
}

dump-first_byte :
    (strip : Bool) (p : Proto)
    → dump_chunk buffer_writer p (start strip)
      ≡ dump_block buffer_writer none
          (dump_function buffer_writer p (before_function strip p (first_byte strip)))
unfolding dump_chunk dump_header before_function
dump-first_byte strip p = rw dump_signature

-- A dump to memory starts with the first byte of the signature, which the rest of the chunk follows.
module _ (strip : Bool) (p : Proto) (h : FitsProto p) (n : size_upvalues p < 256) where
  before_Ready : Ready strip (before_function strip p (first_byte strip))
  unfolding before_function
  before_Ready =
      let header = header_lem strip (first_byte strip) (first_byte-Ready strip) in
      (byte_lem strip (size_upvalues p) n _ header.ready).ready

  end_sink : (D : Buffered) → Ready strip D → (dump_block buffer_writer none D).sink ≡ D.sink
  unfolding dump_block buffer_writer
  end_sink D r = rw r.no_error

  dump_size-depth : depth p ≤ length (dump_chunk buffer_writer p (start strip)).sink
  dump_size-depth =
      let D = before_function strip p (first_byte strip) in
      let w = function_lem strip (depth p) p (omega arith) h D before_Ready in
      rw (dump-first_byte, end_sink _ w.ready)
        (omega (arith, depth-le-dump strip p D h before_Ready))

  -- What string.dump writes for a prototype in the ranges of the C types, with fewer than 256 upvalues
  -- and a chunk below 2^64 bytes, luaU_undump reads back from a buffer that is not fixed, whatever
  -- blocks the reader cuts the chunk into: the number of upvalues and the prototype, without the
  -- PF_FIXED mark and less what `strip` drops. All bytes of the chunk are taken, and `rest` after it is
  -- left.
  pub undump-dump :
      (z : Zio) (rest : List ℕ)
      → length (dump buffer_writer [] strip p).0 < 2 ^ 64
      → 0x1b ∷ contents z ≡ (dump buffer_writer [] strip p).0 ++ rest
      → (S : LoadState) × (undump z false ≡ ok ((size_upvalues p, visible strip p), S))
        × (contents S.z ≡ rest)
  unfolding dump undump
  undump-dump z rest small e =
      let fuel = suc (length (contents z)) in
      let enough : depth p ≤ fuel = omega (
        arith,
        dump_size-depth,
        ap (length {0}) e,
        length-append {0} (dump_chunk buffer_writer p (start strip)).sink rest,
      ) in
      let w = chunk_lem strip fuel p enough h n (first_byte strip) (first_byte-Ready strip) in
      let sink = ap (λ D. D.sink) (dump-first_byte strip p) ∙ w.sink in
      let got =
        w.loads (rw dump-first_byte at small) (load_start z) rest (first_byte-Sync strip z)
          (ap (drop 1) (e ∙ ap (λ t. t ++ rest) sink)) in
      (got.after, got.returns, got.left)
