-- ===== src/Tests.antt =====
-- Runs of the modelled code on concrete inputs, and the theorems at such inputs.
mod Codec
mod Header
mod Lookup
mod Pool
mod Files
mod WholeHeader
mod Writer
mod Archive
mod Reader
mod Delta
mod Branch
mod Bcj2
mod Listing
