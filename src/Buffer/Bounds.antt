-- ===== src/Buffer/Bounds.antt =====
-- Buffer.h: the order of the indices, and the size_t arithmetic on them.
use head_write_muduo_epoll_c.Base.{
  ℕ, ◌-◌, ◌+◌, ◌≤◌, ◌<◌, ◌≡◌, length, take, drop, replicate, ◌++◌, add_size, length-append,
  length-take, length-drop, length-replicate, List, arith, max_size,
}
use head_write_muduo_epoll_c.Buffer.{
  Buffer, cheap_prepend, new_buffer, readable_bytes, writable_bytes, retrive, resize, copy_to,
  make_space, ensure_writable_bytes, append,
}

pub record IsValid (b : Buffer) : Type 0 where
  pub prepend : cheap_prepend ≤ b.reader_index
  pub ordered : b.reader_index ≤ b.writer_index
  pub inside : b.writer_index ≤ length b.buffer
  pub small : length b.buffer < max_size

pub readable_bytes_lem :
    {b : Buffer} → IsValid b → readable_bytes b ≡ b.writer_index - b.reader_index
unfolding readable_bytes
readable_bytes_lem v = omega arith

pub writable_bytes_lem :
    {b : Buffer} → IsValid b → writable_bytes b ≡ length b.buffer - b.writer_index
unfolding writable_bytes
writable_bytes_lem v = omega arith

pub length-resize : (xs : List ℕ) (n : ℕ) → length (resize xs n) ≡ n
unfolding resize
length-resize xs n = omega (
  arith,
  length-append (take n xs) (replicate (n - length xs) 0),
  length-take n xs,
  length-replicate {A = ℕ} (n - length xs) 0,
)

pub length-copy_to :
    (i : ℕ) (src xs : List ℕ) → i + length src ≤ length xs → length (copy_to i src xs) ≡ length xs
unfolding copy_to
length-copy_to i src xs h = omega (
  arith,
  length-append (take i xs) (src ++ drop (i + length src) xs),
  length-append src (drop (i + length src) xs),
  length-take i xs,
  length-drop (i + length src) xs,
)

-- The piece of a vector between two indices.
pub length-slice :
    (r w : ℕ) (xs : List ℕ) → r ≤ w → w ≤ length xs → length (take (w - r) (drop r xs)) ≡ w - r
length-slice r w xs h k = omega (arith, length-take (w - r) (drop r xs), length-drop r xs)

pub new_buffer-IsValid : (n : ℕ) → n + cheap_prepend < max_size → IsValid (new_buffer n)
unfolding new_buffer
new_buffer-IsValid n h = omega (arith, length-replicate {A = ℕ} (add_size cheap_prepend n) 0)

-- `retrive` keeps the indices in order for every length, also one past the readable bytes.
pub retrive-IsValid : {b : Buffer} (n : ℕ) → IsValid b → IsValid (retrive b n)
unfolding retrive
retrive-IsValid n v = ground arith

pub length-retrive :
    {b : Buffer} (n : ℕ) → IsValid b → length (retrive b n).buffer ≡ length b.buffer
unfolding retrive
length-retrive n v = ground arith

module _ {b : Buffer} (len : ℕ) (v : IsValid b) (fits : b.writer_index + len < max_size) where
  pub make_space-IsValid : writable_bytes b < len → IsValid (make_space b len)
  unfolding make_space
  make_space-IsValid short = ground (
    arith,
    length-resize b.buffer (add_size b.writer_index len),
    length-slice b.reader_index b.writer_index b.buffer,
    length-copy_to 8 (take (b.writer_index - b.reader_index) (drop b.reader_index b.buffer))
        b.buffer,
  )

  pub make_space-room :
      writable_bytes b < len
      → ((make_space b len).writer_index + len ≤ length (make_space b len).buffer)
        × (length b.buffer ≤ length (make_space b len).buffer)
  unfolding make_space
  make_space-room short = ground (
    arith,
    length-resize b.buffer (add_size b.writer_index len),
    length-slice b.reader_index b.writer_index b.buffer,
    length-copy_to 8 (take (b.writer_index - b.reader_index) (drop b.reader_index b.buffer))
        b.buffer,
  )

  pub ensure_writable_bytes-IsValid : IsValid (ensure_writable_bytes b len)
  unfolding ensure_writable_bytes
  ensure_writable_bytes-IsValid = ground (arith, make_space-IsValid)

  pub ensure_writable_bytes-room :
      ((ensure_writable_bytes b len).writer_index + len
        ≤ length (ensure_writable_bytes b len).buffer)
      × (length b.buffer ≤ length (ensure_writable_bytes b len).buffer)
  unfolding ensure_writable_bytes
  ensure_writable_bytes-room = ground (arith, make_space-room, writable_bytes_lem v)

-- On a valid buffer, and while the write index and the new bytes stay below the largest vector,
-- `append` leaves a valid buffer: the indices are in order and inside the vector, behind the
-- prependable bytes.
pub append-IsValid :
    {b : Buffer} (bytes : List ℕ)
    → IsValid b
    → b.writer_index + length bytes < max_size
    → IsValid (append b bytes)
unfolding append
append-IsValid {b} bytes v fits =
    let room = ensure_writable_bytes b (length bytes) in
    omega (
      arith,
      ensure_writable_bytes-IsValid {b = b} (length bytes) v fits,
      ensure_writable_bytes-room {b = b} (length bytes) v fits,
      length-copy_to room.writer_index bytes room.buffer,
    )

module _ {b : Buffer} (len : ℕ) (v : IsValid b) (fits : b.writer_index + len < max_size) where
  length-make_space :
      writable_bytes b < len → length (make_space b len).buffer ≤ length b.buffer + len
  unfolding make_space
  length-make_space short = ground (
    arith,
    length-resize b.buffer (add_size b.writer_index len),
    length-slice b.reader_index b.writer_index b.buffer,
    length-copy_to 8 (take (b.writer_index - b.reader_index) (drop b.reader_index b.buffer))
        b.buffer,
  )

  length-ensure_writable_bytes : length (ensure_writable_bytes b len).buffer ≤ length b.buffer + len
  unfolding ensure_writable_bytes
  length-ensure_writable_bytes = ground (arith, length-make_space)

-- `append` adds no more to the vector than the bytes that it is given.
pub append_grows :
    {b : Buffer} (bytes : List ℕ)
    → IsValid b
    → b.writer_index + length bytes < max_size
    → length (append b bytes).buffer ≤ length b.buffer + length bytes
unfolding append
append_grows {b} bytes v fits =
    let room = ensure_writable_bytes b (length bytes) in
    omega (
      arith,
      length-ensure_writable_bytes {b = b} (length bytes) v fits,
      ensure_writable_bytes-room {b = b} (length bytes) v fits,
      length-copy_to room.writer_index bytes room.buffer,
    )
