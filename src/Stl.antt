-- ===== src/Stl.antt =====
-- src/infra/stl.c and include/infra/stl.h: the containers.
pub mod Key
pub mod HashMap
pub mod LazyHeap
pub mod Vector
pub mod LinkedList
