-- ===== src/RoundTrip/Tests.antt =====
-- A sample function with a nested one, dumped and read back, and the theorems at it.
use luava.Base.{ℕ, ◌-◌, ◌^◌, ◌<◌, ◌≡◌, ◌≢◌, refl, arith}
use luava.Base.{
  true, false, Option, none, some, List, [], ◌∷◌, ◌++◌, length, take, drop, dec_lt, lt_wf,
}
use luava.Zio.{Zio}
use luava.Zio.Contents.{contents, delivered}
use luava.Proto.{Proto, Protos, Constant, size_upvalues, count, FitsProto}
use luava.Dump
use luava.Dump.{dump, dump_varint, dump_string}
use luava.Undump.{LoadState, ok, stuck, undump, load_varint, load_string}
use luava.Proto.{int_max}
use luava.Dump.Errors.{Calls, dump-Calls}
use luava.Undump.Total.{undump-returns}
use luava.RoundTrip.Varint.{varint_lem}
use luava.RoundTrip.Strings.{string_lem}
use luava.RoundTrip.Sync.{buffer_writer, RoundTrip}
use luava.RoundTrip.Debugs.{visible}
use luava.RoundTrip.Chunk.{undump-dump}

abbrev env_name : List ℕ
env_name = b'_' ∷ b'E' ∷ b'N' ∷ b'V' ∷ []

abbrev chunk_name : List ℕ
chunk_name = b'=' ∷ b'x' ∷ []

abbrev inner : Proto
inner =
    Proto.proto
      (record {
        numparams = 0;
        flag = 0;
        maxstacksize = 2;
        linedefined = 1;
        lastlinedefined = 2;
        k = Constant.str env_name ∷ Constant.int (2 ^ 64 - 3) ∷ [];
        code = 0x01020304 ∷ [];
        upvalues = record { name = some env_name; instack = 0; idx = 0; kind = 0 } ∷ [];
        lineinfo = 1 ∷ [];
        abslineinfo = record { pc = 0; line = 2 } ∷ [];
        locvars = record { varname = some chunk_name; startpc = 0; endpc = 1 } ∷ [];
        source = some chunk_name;
      })
      Protos.end

abbrev sample : Proto
sample =
    Proto.proto
      (record {
        numparams = 0;
        flag = 1;
        maxstacksize = 3;
        linedefined = 0;
        lastlinedefined = 0;
        k = Constant.nil ∷ Constant.flt 0x3ff0000000000000 ∷ [];
        code = 0x51 ∷ 0x52 ∷ [];
        upvalues = record { name = some env_name; instack = 1; idx = 0; kind = 0 } ∷ [];
        lineinfo = 1 ∷ 0 ∷ [];
        abslineinfo = [];
        locvars = [];
        source = some chunk_name;
      })
      (Protos.next inner Protos.end)

sample_bytes : List ℕ
unfolding dump Dump.dump_chunk Dump.dump_header Dump.dump_num_info Dump.dump_function
    Dump.dump_protos Dump.dump_source Dump.dump_debug Dump.dump_debug_as Dump.dump_locvar
    Dump.dump_upvalues Dump.dump_upvalue Dump.dump_constants Dump.dump_constant
    Dump.dump_constant_value Dump.dump_each Dump.dump_code Dump.dump_string Dump.dump_new_string
    Dump.dump_integer Dump.dump_number Dump.dump_int Dump.dump_size Dump.dump_varint Dump.dump_byte
    Dump.dump_align Dump.dump_bytes Dump.dump_block Dump.abs_words Dump.type_tag Dump.integer_code
    Dump.varint_bytes Dump.varint_loop Dump.saved_index Dump.str_eq Dump.le_words Dump.le_bytes
    buffer_writer size_upvalues count dec_lt lt_wf
sample_bytes = (dump buffer_writer [] false sample).0

sample_length : length sample_bytes ≡ 134
unfolding sample_bytes
sample_length = refl

-- The chunk in three blocks, with a byte behind it; the first byte is read already.
abbrev sample_stream : Zio
sample_stream = record {
  buffer = take 9 (drop 1 sample_bytes);
  pieces = drop 10 sample_bytes ∷ (7 ∷ []) ∷ [];
}

sample_Fits : FitsProto sample
unfolding count
sample_Fits = grind arith

sample_small : length (dump buffer_writer [] false sample).0 < 2 ^ 64
unfolding sample_bytes
sample_small = omega arith

sample_streamed : 0x1b ∷ contents sample_stream ≡ (dump buffer_writer [] false sample).0 ++ (7 ∷ [])
unfolding sample_bytes contents delivered
sample_streamed = refl

undump-dump_example :
    (S : LoadState) × (undump sample_stream false ≡ ok ((1, visible false sample), S))
    × (contents S.z ≡ 7 ∷ [])
unfolding size_upvalues
undump-dump_example =
    undump-dump false sample sample_Fits (omega arith) sample_stream (7 ∷ []) sample_small
      sample_streamed

varint_lem_example : RoundTrip false (dump_varint buffer_writer 300) (load_varint int_max) 300
varint_lem_example = varint_lem false 300 int_max (omega arith) (omega arith)

string_lem_example :
    RoundTrip true (dump_string buffer_writer (some env_name)) load_string (some env_name)
string_lem_example = string_lem true (some env_name) (omega arith)

-- A writer that takes two blocks and fails at the third.
abbrev two_blocks : List (List ℕ) → Option (List ℕ) → List (List ℕ) × ℕ
two_blocks (b ∷ c ∷ bs) _ = (b ∷ c ∷ bs, 7)
two_blocks bs (some b) = (b ∷ bs, 0)
two_blocks bs none = (bs, 0)

dump-Calls_example :
    Calls two_blocks [] (dump two_blocks [] false sample).0 (dump two_blocks [] false sample).1
dump-Calls_example = dump-Calls two_blocks [] false sample

-- A chunk that is cut off in its signature.
undump-returns_example : undump (record { buffer = b'L' ∷ []; pieces = [] }) false ≢ stuck
undump-returns_example = undump-returns (record { buffer = b'L' ∷ []; pieces = [] }) false
