-- ===== src/Buffer/Input.antt =====
-- Buffer.cc: `readFd` and the queue of readable bytes.
use head_write_muduo_epoll_c.Base.{
  ℕ, ◌-◌, ◌+◌, ◌≤◌, ◌<◌, ◌≡◌, sym, ap, ◌∙◌, length, take, drop, ◌++◌, add_size, length-take,
  length-drop, List, arith, max_size, none, some, if◌then◌else◌, ◌==◌, take-all, take-append_right,
  take-take, take-append-drop, append_assoc,
}
use head_write_muduo_epoll_c.Buffer.{
  Buffer, Readv, read_count, read_fd, finish_read, copy_to, append, writable_bytes, iovcnt,
  extra_size,
}
use head_write_muduo_epoll_c.Buffer.Bounds.{
  IsValid, writable_bytes_lem, length-copy_to, append-IsValid,
}
use head_write_muduo_epoll_c.Buffer.Contents.{contents, copy_to-extends, contents-append}

-- What readv(2) documents of a call that read the bytes `got`: it returns their number, it reads no
-- more than the blocks that it is given can hold, and it fills the first block before it touches
-- the second. Bytes of a block past those are not said to be anything.
pub record Filled (writable count n : ℕ) (got base extra : List ℕ) : Type 0 where
  pub counted : n ≡ length got
  pub limited : length got ≤ writable + (if count == 1 then 0 else extra_size)
  pub base_length : length base ≡ writable
  pub base_filled : take (length got) base ≡ take writable got
  pub extra_filled : take (length got - writable) extra ≡ drop writable got

module _ {b : Buffer} {n : ℕ} {got base extra : List ℕ} (v : IsValid b)
    (f : Filled (writable_bytes b) (iovcnt b) n got base extra)
    (fits : length b.buffer + length got < max_size) where
  filled_length : length (copy_to b.writer_index base b.buffer) ≡ length b.buffer
  filled_length =
      length-copy_to b.writer_index base b.buffer
        (omega (arith, f.base_length, writable_bytes_lem v))

  -- The bytes fit in the first block.
  within-contents :
      length got ≤ writable_bytes b
      → take
          (b.writer_index + n - b.reader_index)
          (drop b.reader_index (copy_to b.writer_index base b.buffer))
        ≡ contents b ++ got
  within-contents h =
      sym (
        take-take (b.writer_index + n - b.reader_index)
          (b.writer_index + length base - b.reader_index)
          (drop b.reader_index (copy_to b.writer_index base b.buffer))
          (omega (arith, f.counted, f.base_length)))
      ∙ ap (take (b.writer_index + n - b.reader_index))
          (copy_to-extends b.reader_index b.writer_index base b.buffer v.ordered v.inside)
      ∙ take-append_right (contents b) base (b.writer_index + n - b.reader_index) (length got) (
          omega (
            arith,
            f.counted,
            length-take (b.writer_index - b.reader_index) (drop b.reader_index b.buffer),
            length-drop b.reader_index b.buffer,
          ))
      ∙ ap (◌++◌ (contents b)) (f.base_filled ∙ take-all (writable_bytes b) got h)

  within-IsValid :
      length got ≤ writable_bytes b
      → IsValid (record b {
        buffer = copy_to b.writer_index base b.buffer;
        writer_index = add_size b.writer_index n;
      })
  within-IsValid h = omega (arith, filled_length, f.counted, writable_bytes_lem v)

  -- The first block is full, and the rest went to the array on the stack.
  abbrev full : Buffer
  full = record b {
    buffer = copy_to b.writer_index base b.buffer;
    writer_index = length (copy_to b.writer_index base b.buffer);
  }

  full-IsValid : IsValid full
  full-IsValid = omega (arith, filled_length)

  full-contents :
      writable_bytes b < length got → contents full ≡ contents b ++ take (writable_bytes b) got
  full-contents h =
      ap
        (λ k.
          take (k - b.reader_index) (drop b.reader_index (copy_to b.writer_index base b.buffer)))
        (omega (arith, filled_length, f.base_length, writable_bytes_lem v))
      ∙ copy_to-extends b.reader_index b.writer_index base b.buffer v.ordered v.inside
      ∙ ap (◌++◌ (contents b))
          (sym (take-all (length got) base (omega (arith, f.base_length))) ∙ f.base_filled)

  over-length :
      writable_bytes b < length got
      → length (take (length got - writable_bytes b) extra) ≡ length got - writable_bytes b
  over-length h = ap length f.extra_filled ∙ length-drop (writable_bytes b) got

  over-contents :
      writable_bytes b < length got
      → contents (append full (take (length got - writable_bytes b) extra)) ≡ contents b ++ got
  over-contents h =
      contents-append {b = full} (take (length got - writable_bytes b) extra) full-IsValid
        (omega (arith, filled_length, over-length h))
      ∙ ap (λ ys. ys ++ take (length got - writable_bytes b) extra) (full-contents h)
      ∙ append_assoc (contents b) (take (writable_bytes b) got)
          (take (length got - writable_bytes b) extra)
      ∙ ap (λ ys. contents b ++ (take (writable_bytes b) got ++ ys)) f.extra_filled
      ∙ ap (◌++◌ (contents b)) (take-append-drop (writable_bytes b) got)

  over-IsValid :
      writable_bytes b < length got
      → IsValid (append full (take (length got - writable_bytes b) extra))
  over-IsValid h =
      append-IsValid {b = full} (take (length got - writable_bytes b) extra) full-IsValid
        (omega (arith, filled_length, over-length h))

  finish_read-Filled :
      let (result, saved, b') = finish_read b (read_count n base extra) in
      (result ≡ some n) × (saved ≡ none) × (contents b' ≡ contents b ++ got) × IsValid b'
  unfolding finish_read
  finish_read-Filled = ground (
    arith,
    f.counted,
    writable_bytes_lem v,
    within-contents,
    within-IsValid,
    over-contents,
    over-IsValid,
  )

-- On a valid buffer, where `readv` read the bytes `got` as readv(2) documents (`Filled`) and the
-- vector with them stays below the largest one: `readFd` returns their number, sets no errno, puts
-- them behind the readable bytes, also those that went to the array on the stack, and leaves a
-- valid buffer.
pub read_fd_receives :
    (readv : ℕ → ℕ → Readv) {b : Buffer} {n : ℕ} {got base extra : List ℕ}
    → IsValid b
    → readv (writable_bytes b) (iovcnt b) ≡ read_count n base extra
    → Filled (writable_bytes b) (iovcnt b) n got base extra
    → length b.buffer + length got < max_size
    → let (result, saved, b') = read_fd readv b in
      (result ≡ some n) × (saved ≡ none) × (contents b' ≡ contents b ++ got) × IsValid b'
unfolding read_fd
read_fd_receives readv v e f fits = rw e (finish_read-Filled v f fits)
