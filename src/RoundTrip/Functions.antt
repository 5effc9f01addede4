-- ===== src/RoundTrip/Functions.antt =====
-- Whole prototypes, nested to any depth: dumpFunction against loadFunction.
use luava.Base.{ℕ, zero, suc, ◌≤◌, ◌≡◌, refl, ap, arith, max, bit_and}
use luava.Base.{Bool, none, List, [], ◌∷◌, map, length, length-map, if◌then◌else◌}
use mathlib.Core.Path.{subst}
use luava.Proto.{Body, Proto, Protos, count, IsInt, FitsBody, FitsProto, FitsProtos}
use luava.Dump.{dump_debug, dump_function, dump_protos}
use luava.Undump.{
  Load, ◌>>=◌, pure, load_each, load_debug, load_function, load_function_with, set_names, protos,
  Debug,
}
use luava.RoundTrip.Sync.{buffer_writer, RoundTrip, RoundTrip-bind, RoundTrip-map, RoundTrip-pure}
use luava.RoundTrip.Blocks.{byte_lem}
use luava.RoundTrip.Varint.{int_lem}
use luava.RoundTrip.Arrays.{unnamed, code_lem, constants_lem, upvalues_lem}
use luava.RoundTrip.Debugs.{
  visible_body, visible, visible_all, set_names-kept, debug_of, debug_lem, source_lem, flag_lem,
}

unfoldable mutual
  pub depth : Proto → ℕ
  depth (Proto.proto f ps) = suc (depth_all ps)

  pub depth_all : Protos → ℕ
  depth_all Protos.end = 0
  depth_all (Protos.next p ps) = max (depth p) (depth_all ps)

proto_list : Bool → Protos → List Proto
proto_list strip Protos.end = []
proto_list strip (Protos.next p ps) = visible strip p ∷ proto_list strip ps

protos-proto_list :
    (strip : Bool) (ps : Protos) → protos (proto_list strip ps) ≡ visible_all strip ps
unfolding protos proto_list visible
protos-proto_list strip Protos.end = refl
protos-proto_list strip (Protos.next p ps) =
    ap (Protos.next (visible strip p)) (protos-proto_list strip ps)

-- What loadFunction makes of the last part, where all others were read.
abbrev assemble : Bool → Body → Protos → Debug → Proto
assemble strip f ps debug =
    Proto.proto
      (record f {
        flag = bit_and f.flag 0xfb;
        upvalues = set_names (map unnamed f.upvalues) debug.names;
        lineinfo = debug.lineinfo;
        abslineinfo = debug.abslineinfo;
        locvars = debug.locvars;
        source = if strip then none else f.source;
      })
      (protos (proto_list strip ps))

module _ (strip : Bool) where
  assemble-visible :
      (f : Body) (ps : Protos)
      → assemble strip f ps (debug_of strip f) ≡ visible strip (Proto.proto f ps)
  unfolding debug_of visible visible_body
  assemble-visible f ps = rw (set_names-kept strip f.upvalues, protos-proto_list strip ps)

  finish_lem :
      (f : Body) (ps : Protos)
      → FitsBody f
      → RoundTrip strip
          (dump_debug buffer_writer f)
          (load_debug (length (map unnamed f.upvalues)) >>= λ debug.
            pure (assemble strip f ps debug))
          (visible strip (Proto.proto f ps))
  finish_lem f ps h =
      subst
        (λ p.
          RoundTrip strip (dump_debug buffer_writer f)
            (load_debug (length (map unnamed f.upvalues)) >>= λ debug.
              pure (assemble strip f ps debug))
            p)
        (assemble-visible f ps)
        (rw length-map (RoundTrip-map strip (assemble strip f ps) (debug_lem strip f h)))

  function_with_lem :
      (nested : Load Proto) (f : Body) (ps : Protos)
      → FitsBody f
      → IsInt (count ps)
      → RoundTrip strip
          (dump_protos buffer_writer ps)
          (load_each (count ps) nested)
          (proto_list strip ps)
      → RoundTrip strip
          (dump_function buffer_writer (Proto.proto f ps))
          (load_function_with nested)
          (visible strip (Proto.proto f ps))
  unfolding dump_function load_function_with visible visible_body
  function_with_lem nested f ps h n inner =
      RoundTrip-bind strip _ (int_lem strip f.linedefined h.linedefined) (
        RoundTrip-bind strip _ (int_lem strip f.lastlinedefined h.lastlinedefined) (
          RoundTrip-bind strip _ (byte_lem strip f.numparams h.numparams) (
            RoundTrip-bind strip _ (flag_lem strip f.flag h.flag) (
              RoundTrip-bind strip _ (byte_lem strip f.maxstacksize h.maxstacksize) (
                RoundTrip-bind strip _ (code_lem strip f h.code) (
                  RoundTrip-bind strip _ (constants_lem strip f h.k) (
                    RoundTrip-bind strip _ (upvalues_lem strip f h.upvalues) (
                      RoundTrip-bind strip _ (int_lem strip (count ps) n) (
                        RoundTrip-bind strip _ inner (
                          RoundTrip-bind strip _ (source_lem strip f h.source)
                            (finish_lem f ps h)))))))))))

  mutual
    unfolding depth visible proto_list dump_protos count load_each load_function

    -- A prototype is read back as what of it is visible, with fuel for its depth.
    pub function_lem :
        (fuel : ℕ) (p : Proto)
        → depth p ≤ fuel
        → FitsProto p
        → RoundTrip strip (dump_function buffer_writer p) (load_function fuel) (visible strip p)
    function_lem zero (Proto.proto f ps) d h = absurd (omega arith)
    function_lem (suc fuel) (Proto.proto f ps) d h =
        function_with_lem (load_function fuel) f ps h.0 h.1 (protos_lem fuel ps (omega arith) h.2)

    protos_lem :
        (fuel : ℕ) (ps : Protos)
        → depth_all ps ≤ fuel
        → FitsProtos ps
        → RoundTrip strip
            (dump_protos buffer_writer ps)
            (load_each (count ps) (load_function fuel))
            (proto_list strip ps)
    protos_lem fuel Protos.end d h = RoundTrip-pure strip []
    protos_lem fuel (Protos.next p ps) d h =
        RoundTrip-bind strip
          (λ q. load_each (count ps) (load_function fuel) >>= λ qs. pure (q ∷ qs))
          (function_lem fuel p (omega arith) h.0)
          (RoundTrip-map strip (λ qs. visible strip p ∷ qs) (protos_lem fuel ps (omega arith) h.1))
