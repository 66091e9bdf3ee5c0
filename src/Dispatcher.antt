-- ===== src/Dispatcher.antt =====
-- bsp/bsp_sockets/impl/MsgDispatcher.hpp: the callbacks of the commands. `std::hash` is the
-- parameter `hash`; a callback and its user data are opaque handles.
pub mod Register
use posix_bsp_perf.Prelude.{
  ℕ, Bool, true, false, Option, none, some, List, Map, lookup, insert, if◌then◌else◌,
}

-- `m_dispatcher` and `m_args`
pub record MsgDispatcher : Type 0 where
  pub callbacks : Map ℕ
  pub args : Map ℕ

abbrev pub empty : MsgDispatcher
empty = record { callbacks = List.[]; args = List.[] }

abbrev pub is_some {ℓ} : {A : Type ℓ} → Option A → Bool
is_some none = false
is_some (some a) = true

unfoldable pub exist : MsgDispatcher → ℕ → Bool
exist d cmd_id = is_some (lookup cmd_id d.callbacks)

-- A callback that `callbackFunc` runs, with its user data. An absent entry of `m_args` would be
-- made and read as an empty `std::any`, the handle 0.
unfoldable pub callback_func : MsgDispatcher → ℕ → Option (ℕ × ℕ)
callback_func d cmd_id = elim (lookup cmd_id d.callbacks) [
  | none ↦ none
  | some cb ↦ some (cb, elim (lookup cmd_id d.args) [ none ↦ 0 | some a ↦ a ])
]

module _ {Name : Type 0} (hash : Name → ℕ) where
  -- `true` stands for the result 0, `false` for -1.
  unfoldable pub add_msg_callback : MsgDispatcher → Name → ℕ → ℕ → Bool × MsgDispatcher
  unfolding exist
  add_msg_callback d name cb usr_data = if exist d (hash name) then (false, d) else (
    true,
    record {
      callbacks = insert (hash name) cb d.callbacks;
      args = insert (hash name) usr_data d.args;
    },
  )
