-- ===== src/Dispatch/Scripts.antt =====
-- The jobs of the hashing pool (src/HashJob.hpp), the scripts, and the calls of their functions that
-- the delivery of src/MySQLComponent.cpp makes.
use omp_my_sql.Prelude.{ℕ, Bool, List, [], ◌∷◌, Bytes, Option}
use omp_my_sql.Prelude.Int.{ℤ, pos}
use omp_my_sql.Amx.{Amx}
use omp_my_sql.Query.{CallbackArg, int_arg, float_arg, string_arg}
use omp_my_sql.Component.{Component}

-- `HashJob`
pub data HashOp : Type 0 where
  hash verify : HashOp

pub record HashJob : Type 0 where
  pub op : HashOp
  pub password : Bytes
  pub encoded : Bytes
  pub callback : Bytes
  pub args : List CallbackArg
  pub result : Bytes
  pub verified : Bool

-- An argument on the stack of a script; `amx_PushString` pushes the address of its text.
pub data Pushed : Type 0 where
  pushed_cell : ℤ → Pushed
  pushed_string : Bytes → Pushed

-- A call of a public function. The argument pushed last is the first.
pub record Invocation : Type 0 where
  pub script : ℕ
  pub name : Bytes
  pub stack : List Pushed

pub record Host (a : Amx) : Type 0 where
  -- `pawn_ != nullptr` and `core_ != nullptr`
  pub has_pawn : Bool
  pub has_core : Bool
  pub main_script : Option ℕ
  pub side_scripts : List (Option ℕ)
  pub has_public : ℕ → Bytes → Bool
  pub is_connected : ℕ → Bool
  -- `amx_Exec`: the script may call any native
  pub exec : Invocation → Component × a.Memory → Component × a.Memory

-- The component and the cells of the scripts, with the history of calls.
pub record World (a : Amx) : Type 0 where
  pub component : Component
  pub memory : a.Memory
  pub hashes : List HashJob
  pub calls : List Invocation

abbrev pub arg_of : CallbackArg → Pushed
arg_of (int_arg v) = pushed_cell v
arg_of (float_arg v) = pushed_cell v
arg_of (string_arg s) = pushed_string s

-- The loop over the arguments, last one first.
unfoldable pub push_all : List CallbackArg → List Pushed → List Pushed
push_all [] stack = stack
push_all (x ∷ xs) stack = push_all xs (arg_of x ∷ stack)

-- `errorCode`, `execTimeMicros` and a handle as cells
abbrev pub cell_of : ℕ → Pushed
cell_of n = pushed_cell (pos n)
