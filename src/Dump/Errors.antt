-- ===== src/Dump/Errors.antt =====
-- A writer that fails: after its first answer that is not 0 nothing more goes to it.
use luava.Base.{ℕ, ◌-◌, ◌%◌, ◌≡◌, arith}
use luava.Base.{
  Bool, true, false, Option, none, some, List, [], ◌∷◌, ◌++◌, length, ltb, ◌==◌, if◌then◌else◌,
  Bool-cases, Option-cases, inl, inr,
}
use luava.Proto.{
  TString, Upvaldesc, LocVar, Constant, Body, Proto, Protos, count, size_upvalues, signature,
  luac_data, luac_version, luac_format, luac_int, luac_integer, luac_inst, luac_num,
}
use luava.Dump.{
  DumpState, Dump, ◌>>◌, skip, saved_index, type_tag, dump_block, dump_bytes, dump_align, dump_byte,
  dump_varint, dump_size, dump_int, dump_number, dump_integer, dump_new_string, dump_string,
  dump_code, dump_constant_value, dump_constant, dump_each, dump_constants, dump_upvalue,
  dump_upvalues, dump_locvar, dump_debug_as, dump_debug, dump_source, dump_function, dump_protos,
  dump_num_info, dump_header, dump_chunk, dump,
}

-- The states of a writer's data and the last status that it gave, from `start` on, where it is
-- called only while its status is 0.
pub data Calls {W : Type 0} (writer : W → Option (List ℕ) → W × ℕ) (start : W)
    : W → ℕ → Type 0 where
  not_called : Calls writer start start 0
  called :
      (w : W) (b : Option (List ℕ))
      → Calls writer start w 0
      → Calls writer start (writer w b).0 (writer w b).1

module _ {W : Type 0} (writer : W → Option (List ℕ) → W × ℕ) (start : W) where
  record Called (D : DumpState W) : Type 0 where
    calls : Calls writer start D.sink D.status

  -- The statement calls the writer only while its status is 0.
  abbrev Stops : Dump W → Type 0
  Stops m = (D : DumpState W) → Called D → Called (m D)

  Stops-skip : Stops skip
  Stops-skip D h = h

  Stops-then : {m k : Dump W} → Stops m → Stops k → Stops (m >> k)
  Stops-then {m} p q D h = q (m D) (p D h)

  Stops-if : (t : Bool) {m k : Dump W} → Stops m → Stops k → Stops (if t then m else k)
  Stops-if true p q = p
  Stops-if false p q = q

  Called-if : (t : Bool) {E F : DumpState W} → Called E → Called F → Called (if t then E else F)
  Called-if true p q = p
  Called-if false p q = q

  Stops-each {ℓ} :
      {A : Type ℓ} (f : A → Dump W)
      → ((x : A) → Stops (f x))
      → (xs : List A) → Stops (dump_each writer f xs)
  unfolding dump_each
  Stops-each f p [] = Stops-skip
  Stops-each f p (x ∷ xs) = Stops-then (p x) (Stops-each f p xs)

  zero_of : (n : ℕ) → (n == 0) ≡ true → n ≡ 0
  zero_of n h = ground arith

  Stops-block : (b : Option (List ℕ)) → Stops (dump_block writer b)
  unfolding dump_block
  Stops-block none D h = elim (Bool-cases (D.status == 0)) [
    | inl good ↦
        rw good
          (record { calls = Calls.called D.sink none (rw (zero_of D.status good) at h.calls) })
    | inr failed ↦ rw failed h
  ]
  Stops-block (some b) D h = elim (Bool-cases (D.status == 0)) [
    | inl good ↦
        rw good
          (record { calls = Calls.called D.sink (some b) (rw (zero_of D.status good) at h.calls) })
    | inr failed ↦ rw failed h
  ]

  Stops-bytes : (b : List ℕ) → Stops (dump_bytes writer b)
  unfolding dump_bytes
  Stops-bytes b = Stops-block (some b)

  Stops-align : (align : ℕ) → Stops (dump_align writer align)
  unfolding dump_align
  Stops-align align D h =
      Called-if (ltb (align - D.offset % align) align) (Stops-bytes _ D h) (Stops-skip D h)

  Stops-int : (x : ℕ) → Stops (dump_int writer x)
  unfolding dump_int dump_varint
  Stops-int x = Stops-bytes _

  Stops-byte : (x : ℕ) → Stops (dump_byte writer x)
  unfolding dump_byte
  Stops-byte x = Stops-bytes _

  Stops-new_string : (ts : TString) → Stops (dump_new_string writer ts)
  unfolding dump_new_string dump_size dump_varint
  Stops-new_string ts D h = record {
    calls = (Stops-then (Stops-bytes _) (Stops-bytes (ts ++ (0 ∷ []))) D h).calls;
  }

  Stops-varint : (x : ℕ) → Stops (dump_varint writer x)
  unfolding dump_varint
  Stops-varint x = Stops-bytes _

  Stops-string : (s : Option TString) → Stops (dump_string writer s)
  unfolding dump_string
  Stops-string none D h = Stops-then (Stops-varint 0) (Stops-varint 0) D h
  Stops-string (some ts) D h = elim (Option-cases (saved_index ts D.h)) [
    | inl fresh ↦ rw (fresh, dump_string) (Stops-new_string ts D h)
    | inr (i, saved) ↦ rw (saved, dump_string) (Stops-then (Stops-varint 0) (Stops-varint i) D h)
  ]

  Stops-constant_value : (o : Constant) → Stops (dump_constant_value writer o)
  unfolding dump_constant_value dump_number dump_integer
  Stops-constant_value Constant.nil = Stops-skip
  Stops-constant_value Constant.false = Stops-skip
  Stops-constant_value Constant.true = Stops-skip
  Stops-constant_value (Constant.int x) = Stops-varint _
  Stops-constant_value (Constant.flt x) = Stops-bytes _
  Stops-constant_value (Constant.str ts) = Stops-string (some ts)

  Stops-constant : (o : Constant) → Stops (dump_constant writer o)
  unfolding dump_constant
  Stops-constant o = Stops-then (Stops-byte (type_tag o)) (Stops-constant_value o)

  Stops-upvalue : (u : Upvaldesc) → Stops (dump_upvalue writer u)
  unfolding dump_upvalue
  Stops-upvalue u =
      Stops-then (Stops-then (Stops-byte u.instack) (Stops-byte u.idx)) (Stops-byte u.kind)

  Stops-locvar : (v : LocVar) → Stops (dump_locvar writer v)
  unfolding dump_locvar
  Stops-locvar v =
      Stops-then (Stops-then (Stops-string v.varname) (Stops-int v.startpc)) (Stops-int v.endpc)

  Stops-code : (f : Body) → Stops (dump_code writer f)
  unfolding dump_code
  Stops-code f = Stops-then (Stops-then (Stops-int (length f.code)) (Stops-align 4)) (Stops-bytes _)

  Stops-constants : (f : Body) → Stops (dump_constants writer f)
  unfolding dump_constants
  Stops-constants f =
      Stops-then (Stops-int (length f.k)) (Stops-each (dump_constant writer) Stops-constant f.k)

  Stops-upvalues : (f : Body) → Stops (dump_upvalues writer f)
  unfolding dump_upvalues
  Stops-upvalues f =
      Stops-then (Stops-int (length f.upvalues))
        (Stops-each (dump_upvalue writer) Stops-upvalue f.upvalues)

  Stops-debug_as : (strip : Bool) (f : Body) → Stops (dump_debug_as writer strip f)
  unfolding dump_debug_as
  Stops-debug_as strip f = Stops-then (Stops-int _) (
      Stops-then (Stops-if (length f.lineinfo == 0) Stops-skip (Stops-bytes _)) (
        Stops-then (Stops-int _) (
          Stops-then
            (Stops-if (length (if strip then [] else f.abslineinfo) == 0) Stops-skip
              (Stops-then (Stops-align 4) (Stops-bytes _)))
            (Stops-then (Stops-int _) (
              Stops-then (Stops-each (dump_locvar writer) Stops-locvar _)
                (Stops-then (Stops-int _) (Stops-each (dump_string writer) Stops-string _)))))))

  mutual
    unfolding dump_function dump_protos dump_source dump_debug

    Stops-function : (p : Proto) → Stops (dump_function writer p)
    Stops-function (Proto.proto f ps) = Stops-then (Stops-int _) (
        Stops-then (Stops-int _) (
          Stops-then (Stops-byte _) (
            Stops-then (Stops-byte _) (
              Stops-then (Stops-byte _) (
                Stops-then (Stops-code f) (
                  Stops-then (Stops-constants f) (
                    Stops-then (Stops-upvalues f) (
                      Stops-then (Stops-int (count ps)) (
                        Stops-then (Stops-protos ps) (
                          Stops-then (λ D. Stops-string (if D.strip then none else f.source) D)
                            (λ D. Stops-debug_as D.strip f D)))))))))))

    Stops-protos : (ps : Protos) → Stops (dump_protos writer ps)
    Stops-protos Protos.end = Stops-skip
    Stops-protos (Protos.next p ps) = Stops-then (Stops-function p) (Stops-protos ps)

  Stops-num_info : (width i : ℕ) → Stops (dump_num_info writer width i)
  unfolding dump_num_info
  Stops-num_info width i = Stops-then (Stops-byte width) (Stops-bytes _)

  Stops-header : Stops (dump_header writer)
  unfolding dump_header
  Stops-header = Stops-then (Stops-bytes signature) (
      Stops-then (Stops-byte luac_version) (
        Stops-then (Stops-byte luac_format) (
          Stops-then (Stops-bytes luac_data) (
            Stops-then (Stops-num_info 4 luac_int) (
              Stops-then (Stops-num_info 4 luac_inst)
                (Stops-then (Stops-num_info 8 luac_integer) (Stops-num_info 8 luac_num)))))))

  chunk-Stops : (p : Proto) → Stops (dump_chunk writer p)
  unfolding dump_chunk
  chunk-Stops p =
      Stops-then Stops-header (
        Stops-then (Stops-byte (size_upvalues p))
          (Stops-then (Stops-function p) (Stops-block none)))

  -- For every writer: luaU_dump calls it only while its answers are 0, and returns the last answer
  -- as the status, so that nothing is written after an error.
  pub dump-Calls :
      (strip : Bool) (p : Proto)
      → Calls writer start (dump writer start strip p).0 (dump writer start strip p).1
  unfolding dump
  dump-Calls strip p =
      (chunk-Stops p
        (record { sink = start; offset = 0; strip = strip; status = 0; h = []; nstr = 0 })
        (record { calls = Calls.not_called })).calls
