-- ===== src/Iterator.antt =====
-- include/iterator.h and src/iterator.cpp: the class Iterator as a record of operations on a state,
-- and the three iterators as instances of it.
pub mod Spec
pub mod Table
pub mod Memory
pub mod Merging
use cpp_kvstore.Common.{ℕ, Bool, Run, []}
use cpp_kvstore.Common.Bytes.{Bytes}

pub record IteratorEntry : Type 0 where
  pub key : Bytes
  pub value : Bytes
  pub type_ : ℕ
  pub sequence : ℕ

-- IteratorEntry{}
abbrev pub no_entry : IteratorEntry
no_entry = record { key = []; value = []; type_ = 1; sequence = 0 }

-- The virtual functions of Iterator, for a class whose objects have states in S.
pub record Iterator (S : Type 0) : Type 0 where
  pub valid : S → Bool
  pub next : S → Run S
  pub entry : S → IteratorEntry
  pub seek : S → Bytes → Run S
