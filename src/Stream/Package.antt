-- ===== src/Stream/Package.antt =====
-- include/daw/fs/package.h: what a stream hands from one of its tasks to the next.
use function_stream.Base.{◌≡◌, refl, Bool, Option, none, some}
use function_stream.Future.{MemberData}

-- `package_impl_t`: none is a handle of the future or a list of functions that was moved from.
pub record Package (F A R : Type 0) : Type 0 where
  pub function_list : Option F
  pub targs : A
  pub result : Option (MemberData R)
  pub continue_on_result_destruction : Bool

module _ {F A R : Type 0} where
  abbrev pub make_shared_package : Bool → MemberData R → F → A → Package F A R
  make_shared_package flag result functions args = record {
    function_list = some functions;
    targs = args;
    result = some result;
    continue_on_result_destruction = flag;
  }

  unfoldable pub continue_processing : Package F A R → Bool
  continue_processing p = p.continue_on_result_destruction

  -- `next_package`: the package of the next function, and what is left of this one.
  unfoldable pub next_package : {B : Type 0} → B → Package F A R → Package F B R × Package F A R
  next_package args p = (
    record {
      function_list = p.function_list;
      targs = args;
      result = p.result;
      continue_on_result_destruction = p.continue_on_result_destruction;
    },
    record p { function_list = none; result = none },
  )

-- The package of the next function has all that the package was made with; the one that it was made
-- from can no longer reach the future, so that an exception that is thrown while the next task is added
-- is not delivered to it.
pub next_package-moves :
    {F A B R : Type 0} (flag : Bool) (result : MemberData R) (functions : F) (args : A) (nargs : B)
    → ((next_package nargs (make_shared_package flag result functions args)).0
        ≡ make_shared_package flag result functions nargs)
      × ((next_package nargs (make_shared_package flag result functions args)).1.result ≡ none)
unfolding next_package
next_package-moves flag result functions args nargs = (refl, refl)
