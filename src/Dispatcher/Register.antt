-- ===== src/Dispatcher/Register.antt =====
-- Registration in MsgDispatcher.hpp.
use posix_bsp_perf.Prelude.{ℕ, ◌≡◌, true, false, some, lookup-insert, arith, ◌==◌, if◌then◌else◌}
use posix_bsp_perf.Dispatcher.{MsgDispatcher, exist, callback_func, add_msg_callback, is_some}

module _ {Name : Type 0} (hash : Name → ℕ) (d : MsgDispatcher) (name : Name) (cb usr_data : ℕ) where
  -- Registering a name whose hash is free succeeds: from then on its command id runs the callback
  -- with its user data, and every other command id runs what it ran before.
  pub callback_func-add_msg_callback :
      (cmd_id : ℕ)
      → exist d (hash name) ≡ false
      → ((add_msg_callback hash d name cb usr_data).0 ≡ true)
        × (callback_func (add_msg_callback hash d name cb usr_data).1 cmd_id
            ≡ (if hash name == cmd_id then some (cb, usr_data) else callback_func d cmd_id))
  unfolding callback_func add_msg_callback
  callback_func-add_msg_callback cmd_id free = ground (
    arith,
    lookup-insert (hash name) cmd_id cb d.callbacks,
    lookup-insert (hash name) cmd_id usr_data d.args,
  )

  -- Registering a name whose hash is taken, be it by another name, fails and changes nothing.
  pub add_msg_callback_taken :
      (other : Name)
      → hash name ≡ hash other
      → exist d (hash other) ≡ true
      → add_msg_callback hash d name cb usr_data ≡ (false, d)
  unfolding add_msg_callback
  add_msg_callback_taken other same taken = ground arith

-- A command id runs a callback exactly if it exists.
pub exist_iff_callback :
    (d : MsgDispatcher) (cmd_id : ℕ) → exist d cmd_id ≡ is_some (callback_func d cmd_id)
unfolding exist callback_func
exist_iff_callback d cmd_id = ground arith
