-- ===== src/Future/Chain/Piping.antt =====
-- What the client does to a chain of futures.
use function_stream.Base.{
  ℕ, suc, ◌+◌, ◌≤◌, ◌≡◌, refl, ap, sym, ◌∙◌, true, List, [], ◌∷◌, ◌++◌, length, length-append,
  append_assoc, Option, none, some, Outcome, returns, throws, faults, ◌>>=◌, All, arith,
}
use function_stream.Scheduler.Stealing.{All-append}
use function_stream.Latch.{notify}
use function_stream.Future
use function_stream.Future.{
  MemberData, Expected, value, exception, Expected.empty, ready, continued, fresh, from_code,
  set_exception, set_value, set_expected, continuation,
}
use function_stream.Future.Chain.{Cell, schedule, continue, fill, pipe, in_a_row}
use function_stream.Future.Chain.Flow.{
  filled, pending, last_filled, IsIdle, Total, Flows, flowing, settled,
}

module _ {T : Type 0} where
  pipe-cons :
      (func : T → Outcome T) (c : Cell T) (cells : List (Cell T)) {r : List (Cell T)}
      → pipe func cells ≡ returns r
      → pipe func (c ∷ cells) ≡ returns (c ∷ r)
  unfolding pipe
  pipe-cons func c [] e = cc
  pipe-cons func c (c' ∷ cells) e = ap (λ o. o >>= λ rest. returns (c ∷ rest)) e

  pipe-before :
      (func : T → Outcome T) (before cells : List (Cell T)) {r : List (Cell T)}
      → pipe func cells ≡ returns r
      → pipe func (before ++ cells) ≡ returns (before ++ r)
  pipe-before func [] cells e = e
  pipe-before func (c ∷ before) cells e =
      pipe-cons func c (before ++ cells) (pipe-before func before cells e)

  pipe-pending :
      (func : T → Outcome T) (task : Option (Outcome T)) (funcs : List (T → Outcome T))
      → pipe func (pending task funcs) ≡ returns (pending task (funcs ++ func ∷ []))
  pipe-pending func task [] = unfold pipe Future.next notify continue in refl
  pipe-pending func task (f ∷ funcs) = pipe-cons func _ _ (pipe-pending func none funcs)

  in_a_row-append :
      (o : Outcome T) (funcs : List (T → Outcome T)) (func : T → Outcome T)
      → in_a_row o (funcs ++ func ∷ []) ≡ (in_a_row o funcs >>= func)
  in_a_row-append o [] func = refl
  in_a_row-append o (f ∷ funcs) func = in_a_row-append (o >>= f) funcs func

  Total-append :
      (funcs : List (T → Outcome T)) (func : T → Outcome T)
      → All Total funcs
      → Total func
      → All Total (funcs ++ func ∷ [])
  Total-append [] func k t = (t, tt)
  Total-append (f ∷ funcs) func k t = (k.0, Total-append funcs func k.1 t)

  -- The client chains one more function.
  pub pipe-Flows :
      (result : Outcome T) (func : T → Outcome T) (todo : List (T → Outcome T))
      (cells : List (Cell T)) (left : ℕ)
      → Total func
      → Flows result (func ∷ todo) cells left
      → (cells' : List (Cell T)) × (left' : ℕ) × (pipe func cells ≡ returns cells')
        × Flows result todo cells' left'
        × (left' ≤ left + 1)
  unfolding pipe continue Future.next schedule continuation set_exception set_expected notify fill
  pipe-Flows result func todo cells left t (flowing before o funcs idle h k e f l) = (
    before ++ pending (some o) (funcs ++ func ∷ []),
    suc (length (funcs ++ func ∷ [])),
    ap (pipe func) e ∙ pipe-before func before _ (pipe-pending func (some o) funcs),
    flowing before o (funcs ++ func ∷ []) idle h (Total-append funcs func k t) refl
        (ap (λ r. in_a_row r todo) (in_a_row-append o funcs func) ∙ f) refl,
    omega (arith, length-append funcs (func ∷ [])),
  )
  pipe-Flows result func todo cells left t (settled before (returns v) idle h e f l) =
      let through : Cell T = record {
        task = none;
        future = record (filled (returns v)) {
          has_next = true;
          status = continued;
          calls = value v ∷ [];
        };
        func = some func;
      } in
      (
        before ++ through ∷ pending (some (func v)) [],
        1,
        ap (pipe func) e ∙ pipe-before func before _ refl,
        flowing (before ++ through ∷ []) (func v) []
            (All-append IsIdle before (through ∷ []) idle (refl, tt)) (t v) tt
            (sym (append_assoc before (through ∷ []) (pending (some (func v)) []))) f refl,
        omega arith,
      )
  pipe-Flows result func todo cells left t (settled before throws idle h e f l) =
      let through : Cell T = record {
        task = none;
        future = record (filled throws) {
          has_next = true;
          status = continued;
          calls = exception ∷ [];
        };
        func = some func;
      } in
      (
        before ++ through ∷ last_filled throws,
        0,
        ap (pipe func) e ∙ pipe-before func before _ refl,
        settled (before ++ through ∷ []) throws
            (All-append IsIdle before (through ∷ []) idle (refl, tt)) h
            (sym (append_assoc before (through ∷ []) (last_filled throws))) f refl,
        omega arith,
      )
  pipe-Flows result func todo cells left t (settled before faults idle h e f l) = absurd (h refl)
