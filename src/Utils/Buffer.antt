-- ===== src/Utils/Buffer.antt =====
-- include/dracon/utils.h, class Buffer, at characters. `m_current` and `m_end` are offsets into
-- the data.
pub mod Cursor
mod Tests
use getodac.Common.Bytes.{Bytes}
use getodac.Common.{
  ℕ, zero, suc, ◌+◌, ◌-◌, List, [], ◌∷◌, ◌++◌, leb, ltb, min, ◌==◌, if◌then◌else◌, length, take,
  drop,
}

pub record Buffer : Type 0 where
  pub bytes : Bytes
  pub current : ℕ
  pub end_ : ℕ

-- `std::make_unique<T[]>(size)`
unfoldable pub zeros : ℕ → Bytes
zeros zero = []
zeros (suc n) = 0 ∷ zeros n

unfoldable pub reset : Buffer → Buffer
reset b = record b { current = 0; end_ = length b.bytes }

unfoldable pub resize : ℕ → Buffer → Buffer
unfolding reset zeros
resize size b =
    if size == length b.bytes
    then reset b
    else reset (record b {
      bytes = take (min size (length b.bytes)) b.bytes ++ zeros (size - min size (length b.bytes));
    })

unfoldable pub advance : ℕ → Buffer → Buffer
advance size b = record b { current = min (b.current + size) b.end_ }

unfoldable pub current_string : Buffer → Bytes
current_string b = take (b.end_ - b.current) (drop b.current b.bytes)

-- `memcpy(m_buffer.get(), s.data(), s.size())`
unfoldable pub copy_in : Bytes → Bytes → Bytes
copy_in s bytes = s ++ drop (length s) bytes

unfoldable pub commit : Buffer → Buffer
unfolding current_string copy_in
commit b = if b.current == 0 then b else record {
  bytes = copy_in (current_string b) b.bytes;
  current = 0;
  end_ = b.end_ - b.current;
}

unfoldable pub set_current_size : ℕ → Buffer → Buffer
set_current_size size b = record b { end_ = b.current + size }

unfoldable pub set_current_data : ℕ → Buffer → Buffer
set_current_data size b = record b { current = size }

-- `operator =`
unfoldable pub assign_string : Bytes → Buffer → Buffer
unfolding resize copy_in set_current_size
assign_string buff b =
    let r = resize (length buff) b in
    set_current_size (length buff) (record r { bytes = copy_in buff r.bytes })

-- `operator *=`
unfoldable pub prepend_string : Bytes → Buffer → Buffer
unfolding assign_string reset copy_in advance
prepend_string buff b =
    if leb (length b.bytes) (length buff)
    then assign_string buff b
    else (let r = reset b in advance (length buff) (record r { bytes = copy_in buff r.bytes }))

unfoldable pub clear : Buffer → Buffer
unfolding reset
clear b = reset (record b { bytes = [] })
