-- ===== src/Buffer.antt =====
-- Buffer.h and Buffer.cc: the byte buffer of a connection, a vector of char with a read and a write
-- index. Every size_t sum and difference is taken modulo 2 ^ 64. A byte is a number that is only
-- moved. The words `retrive` and `retriveAll` are the source's. Running out of memory in `resize` is
-- not modelled. The system calls enter by what they leave behind: a `Readv` is what `readv` does
-- to the two blocks, and the result of `write` is an argument of `write_fd`.
pub mod Bounds
pub mod Contents
pub mod Input
use head_write_muduo_epoll_c.Base.{
  ℕ, ◌-◌, ◌+◌, List, ◌++◌, Option, none, some, length, take, drop, replicate, add_size, sub_size,
  ltb, leb, ◌==◌, if◌then◌else◌,
}

abbrev pub cheap_prepend : ℕ
cheap_prepend = 8

abbrev pub initial_size : ℕ
initial_size = 1024

pub record Buffer : Type 0 where
  pub buffer : List ℕ
  pub reader_index : ℕ
  pub writer_index : ℕ

unfoldable pub new_buffer : ℕ → Buffer
new_buffer size = record {
  buffer = replicate (add_size cheap_prepend size) 0;
  reader_index = cheap_prepend;
  writer_index = cheap_prepend;
}

unfoldable pub readable_bytes : Buffer → ℕ
readable_bytes b = sub_size b.writer_index b.reader_index

unfoldable pub writable_bytes : Buffer → ℕ
writable_bytes b = sub_size (length b.buffer) b.writer_index

unfoldable pub prependable_bytes : Buffer → ℕ
prependable_bytes b = b.reader_index

-- The bytes from `peek()` on, to the end of the vector.
unfoldable pub peek : Buffer → List ℕ
peek b = drop b.reader_index b.buffer

unfoldable pub retrive_all : Buffer → Buffer
retrive_all b = record b { reader_index = cheap_prepend; writer_index = cheap_prepend }

unfoldable pub retrive : Buffer → ℕ → Buffer
unfolding readable_bytes retrive_all
retrive b len =
    if ltb len (readable_bytes b)
    then record b { reader_index = add_size b.reader_index len }
    else retrive_all b

-- The string takes `len` bytes from `peek()`, whatever `readableBytes()` is.
unfoldable pub retrive_as_string : Buffer → ℕ → List ℕ × Buffer
unfolding peek
retrive_as_string b len = (take len (peek b), retrive b len)

unfoldable pub retrive_all_string : Buffer → List ℕ × Buffer
retrive_all_string b = retrive_as_string b (readable_bytes b)

-- `vector::resize`: cut, or pad with zeros.
unfoldable pub resize : List ℕ → ℕ → List ℕ
resize xs n = take n xs ++ replicate (n - length xs) 0

-- `std::copy` of `src` onto the bytes from index `at` on, which it replaces.
unfoldable pub copy_to : ℕ → List ℕ → List ℕ → List ℕ
copy_to at src xs = take at xs ++ (src ++ drop (at + length src) xs)

unfoldable pub make_space : Buffer → ℕ → Buffer
unfolding readable_bytes writable_bytes prependable_bytes
make_space b len =
    if ltb (add_size (writable_bytes b) (prependable_bytes b)) (add_size len cheap_prepend)
    then record b { buffer = resize b.buffer (add_size b.writer_index len) }
    else record {
      buffer =
          copy_to cheap_prepend
            (take (b.writer_index - b.reader_index) (drop b.reader_index b.buffer)) b.buffer;
      reader_index = cheap_prepend;
      writer_index = add_size cheap_prepend (readable_bytes b);
    }

unfoldable pub ensure_writable_bytes : Buffer → ℕ → Buffer
ensure_writable_bytes b len = if ltb (writable_bytes b) len then make_space b len else b

-- `append(data, len)`, where `data` has `len` bytes.
unfoldable pub append : Buffer → List ℕ → Buffer
append b bytes =
    let room = ensure_writable_bytes b (length bytes) in
    record room {
      buffer = copy_to room.writer_index bytes room.buffer;
      writer_index = add_size room.writer_index (length bytes);
    }

abbrev pub extra_size : ℕ
extra_size = 65535

-- What `readv` does: it fails with an errno, or it returns a count and leaves the two blocks
-- (`vec[0].iov_len` bytes from `iov_base` on, and the array on the stack) with new bytes.
pub data Readv : Type 0 where
  read_failed : ℕ → Readv
  read_count : ℕ → List ℕ → List ℕ → Readv

unfoldable pub iovcnt : Buffer → ℕ
unfolding writable_bytes
iovcnt b = if ltb (writable_bytes b) extra_size then 2 else 1

-- The result is the return value (`none` is -1), `*saveErrno` where it is set, and the buffer.
finish_read : Buffer → Readv → Option ℕ × Option ℕ × Buffer
finish_read b (read_failed errno) = (none, some errno, b)
finish_read b (read_count n base extra) =
    let filled = record b { buffer = copy_to b.writer_index base b.buffer } in
    if leb n (writable_bytes b)
    then (some n, none, record filled { writer_index = add_size b.writer_index n })
    else (
      some n,
      none,
      append (record filled { writer_index = length filled.buffer })
          (take (sub_size n (writable_bytes b)) extra),
    )

-- `readv` is handed the length of the first block and the number of blocks.
unfoldable pub read_fd : (ℕ → ℕ → Readv) → Buffer → Option ℕ × Option ℕ × Buffer
unfolding finish_read
read_fd readv b = finish_read b (readv (writable_bytes b) (iovcnt b))

-- What `write` returns: a count, or -1 with an errno.
pub data Written : Type 0 where
  write_failed : ℕ → Written
  wrote : ℕ → Written

-- `writeFd` hands the readable bytes to `write`; the errno is saved for every count that is not
-- positive.
unfoldable pub write_fd : Buffer → ℕ → Written → Option ℕ × Option ℕ
write_fd b errno (write_failed e) = (none, some e)
write_fd b errno (wrote n) = (some n, if n == 0 then some errno else none)
