-- ===== src/ClothesFs.antt =====
-- ClothesFS, a file system of linked blocks (inc/fs/clothesfs.hh, src/fs/clothesfs.cpp). The children
-- follow its layers: Bytes the numbers in a buffer, Volume the disc and its blocks, Chain the free
-- blocks, Meta the tables of files and directories, Iterator the reading side, Calls the calls of
-- the file layer; the others hold proofs. The messages to the screen are left out.
pub mod Bytes
pub mod Volume
pub mod Chain
pub mod Meta
pub mod Iterator
pub mod Calls
pub mod Numbers
pub mod Storage
pub mod Free
pub mod Formatted
