-- ===== src/Audience.antt =====
-- internal/audience: the conditions that choose an audience, their parser, and what evaluates them.
pub mod Ast
pub mod RawNode
pub mod Parse
mod Decoding
mod WellFormed
mod Shallow
mod Fuel
pub mod Sql
pub mod Compile
pub mod Matches
pub mod Segment
mod Sets
mod Truth
mod Reading
mod ReadBack
mod Agreeing
mod Meaning
mod Shift
mod Queries
mod Safety
mod Members
mod Lookup
mod Agreement
mod Accepted
mod Examples
