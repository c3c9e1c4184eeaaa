-- ===== src/Controllers.antt =====
-- pkg/controllers: one module for each controller.
pub mod Reply
pub mod Registration
pub mod CallHome
pub mod Cluster
pub mod Apps
