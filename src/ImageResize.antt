-- ===== src/ImageResize.antt =====
-- src/image_resize.rs: the images in a request, scaled down to what the upstream service takes.
pub mod Limits
pub mod Shrink
