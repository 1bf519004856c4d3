-- ===== src/Io.antt =====
-- src/io.c and `fail` of src/app.c. What a system call meets is an argument.
use open_sniffer.Base.{ℕ, zero, suc, ◌-◌, String, Option, [], ◌∷◌, ◌++◌, Bytes, length, take}
use open_sniffer.Machine.{exit_failure, Result, ok, fault, and_then, Buffer, bytes_at}

-- `fail`: the context and `errno` go to the standard error, and the process ends.
unfoldable pub fail : {A : Type 0} → String → Result A
fail context = fault exit_failure

-- The result of a system call: a number, or -1.
pub data Reply : Type 0 where
  returned : ℕ → Reply
  refused : Reply

-- `if (value == -1) fail(context); return (value);`
unfoldable pub checked : String → Reply → Result ℕ
unfolding fail
checked context (returned value) = ok value
checked context refused = fail context

-- `make_raw_socket`, on the result of `socket`
unfoldable pub make_raw_socket : Reply → Result ℕ
unfolding checked
make_raw_socket reply = checked "socket" reply

-- `xclose`, where `close` says what the system does with a file descriptor
unfoldable pub xclose : (ℕ → Reply) → ℕ → Result ℕ
unfolding checked
xclose close fd = checked "close" (close fd)

-- `xsendto`, where `sendto` is given the file descriptor, the bytes, the flags and the address
unfoldable pub xsendto :
    (ℕ → Bytes → ℕ → Option Buffer → Reply) → ℕ → Buffer → ℕ → ℕ → Option Buffer → Result ℕ
unfolding checked
xsendto sendto sockfd buf len flags dest_addr =
    and_then (bytes_at buf 0 len) λ bytes. checked "sendto" (sendto sockfd bytes flags dest_addr)

abbrev pub zeros : ℕ → Bytes
zeros zero = []
zeros (suc n) = 0 ∷ zeros n

-- What `recvfrom` meets: a datagram, or an error, as when a signal interrupts it.
pub data Received : Type 0 where
  datagram : Bytes → Received
  failed : Received

-- `xrecvfrom` into a zeroed buffer of `len` bytes: the bytes that the buffer then holds, and the
-- result. A longer datagram is cut.
unfoldable pub xrecvfrom : Received → ℕ → Result (Bytes × ℕ)
unfolding fail
xrecvfrom failed len = fail "recvfrom"
xrecvfrom (datagram d) len =
    let copied = take len d in ok (copied ++ zeros (len - length copied), length copied)
