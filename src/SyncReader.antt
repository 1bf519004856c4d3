-- ===== src/SyncReader.antt =====
-- src/sync_reader.c and includes/sync_reader.h. A callback is a function
-- pointer, a number here; `code` says what a call of it does.
pub mod Read
pub mod Callbacks
pub mod Alone
use open_sniffer.Base.{
  ℕ, zero, suc, ◌+◌, ◌-◌, Bool, true, false, Option, none, some, List, [], ◌∷◌, ◌++◌, Bytes, length,
  take, ◌==◌,
}
use open_sniffer.Machine.{
  exit_failure, Result, ok, fault, M, ◌>>=◌, ◌>>◌, ret, lift, malloc, free, Buffer,
}
use open_sniffer.Io.{Received, xrecvfrom}
use open_sniffer.Osi.Packet.{Packet}
use open_sniffer.LinkedList.{LinkedList}

module _ (L : LinkedList ℕ) where
  open L use {
    Chain, Node, element, create_static, push_back, find_node_if, iterate_over_nodes, remove_node,
  }

  -- `sync_reader_t`
  pub record Reader : Type 0 where
    pub fd : ℕ
    pub callback_list : Chain
    pub interceptor_list : Chain

  -- `pointer_comparator`
  unfoldable pub pointer_comparator : ℕ → ℕ → Node → Result Bool
  pointer_comparator pointer index node = ok (pointer == element node)

  -- `sync_reader_create`
  unfoldable pub create : ℕ → Reader
  create fd = record { fd = fd; callback_list = create_static; interceptor_list = create_static }

  -- `sync_reader_add_packet_callback`
  unfoldable pub add_packet_callback : Reader → ℕ → Reader
  add_packet_callback reader callback = record reader {
    callback_list = push_back reader.callback_list callback;
  }

  -- `sync_reader_add_packet_interceptor`
  unfoldable pub add_packet_interceptor : Reader → ℕ → Reader
  add_packet_interceptor reader interceptor = record reader {
    interceptor_list = push_back reader.interceptor_list interceptor;
  }

  -- `sync_reader_remove_packet_callback`
  unfoldable pub remove_packet_callback : Reader → ℕ → M Reader
  unfolding pointer_comparator
  remove_packet_callback reader callback = do
    node ← lift (find_node_if reader.callback_list (pointer_comparator callback))
    ret (record reader { callback_list = remove_node reader.callback_list node })

  -- `sync_reader_remove_packet_interceptor`
  unfoldable pub remove_packet_interceptor : Reader → ℕ → M Reader
  unfolding pointer_comparator
  remove_packet_interceptor reader interceptor = do
    node ← lift (find_node_if reader.interceptor_list (pointer_comparator interceptor))
    ret (record reader { interceptor_list = remove_node reader.interceptor_list node })

  module _ (code : ℕ → Reader → Packet → M (Unit {0})) where
    -- `notify_iterator`, which returns 0
    unfoldable pub notify_iterator : Reader → Packet → ℕ → Node → M Bool
    notify_iterator reader packet index node = code (element node) reader packet >> ret false

    -- `notify_packet`
    unfoldable pub notify_packet : Reader → Packet → M (Unit {0})
    unfolding notify_iterator
    notify_packet reader packet =
        iterate_over_nodes reader.callback_list (notify_iterator reader packet)

    -- `sync_reader_read`. The packet lies on the stack, so it has no block of its own.
    unfoldable pub read : Received → Reader → ℕ → M ℕ
    read received reader len = do
      block ← malloc
      (bytes, size) ← lift (xrecvfrom received len)
      let buffer : Option Buffer = some (record { addr = block; bytes = bytes })
      notify_packet reader
          (record { addr = 0; payload = buffer; size = size; protocol = 0; session = none })
      free (some block)
      ret size
